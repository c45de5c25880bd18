-- ===== src/RequestSource.antt =====
-- puls-engine/core/request_source.h: the abstract origin of requests. `W` stands for `double`, `S`
-- for the state of the source. `none` is a `PulledRequest` with a negative prompt.
use puls_rfc.Prelude.{ℕ, ◌≡◌, ◌≤◌, Option, some, ℤ, pos_part}

pub record PulledRequest : Type 0 where
  pub prompt : ℕ
  pub dtot : ℕ

pub record RequestSource (W S : Type 0) : Type 0 where
  pub pull_near : W → ℤ → S → Option PulledRequest × S

-- The request that is pulled fits the room.
abbrev pub Fits : {W S : Type 0} → RequestSource W S → Type 0
Fits {W} {S} src =
    (ideal : W) (room : ℤ) (s : S) (r : PulledRequest)
    → (src.pull_near ideal room s).0 ≡ some r
    → r.prompt ≤ pos_part room
