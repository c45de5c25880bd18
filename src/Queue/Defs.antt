-- ===== src/Queue/Defs.antt =====
-- `Request` and `GlobalQueue` of puls-engine/scheduler. `none` is a request with a negative id.
-- `now - arrival > age_cap` is written `arrival + age_cap < now`, which is the same at any sign.
use puls_rfc.Prelude.{
  ℕ, ◌+◌, ◌-◌, Bool, true, not, ◌&&◌, Option, none, some, List, [], ◌∷◌, ◌++◌, ℤ, pos, ltb, ltb_ℤ,
  set, if◌then◌else◌,
}
use puls_rfc.Double.{Double}
use puls_rfc.Scan.{scan}
use puls_rfc.Steering.{far, dist}

pub record Request : Type 0 where
  pub id : ℕ
  pub prompt : ℕ
  pub max_tokens : ℕ
  pub cached_prefix : ℕ
  pub arrival : ℕ
  pub turn : ℕ

pub record GlobalQueue : Type 0 where
  pub q : List Request
  pub age_cap : ℕ
  pub forced : ℕ

-- `back()` of `x ∷ xs`, and `pop_back()`.
abbrev pub back : {A : Type 0} → A → List A → A
back x [] = x
back x (y ∷ ys) = back y ys

abbrev pub pop_back : {A : Type 0} → List A → List A
pop_back [] = []
pop_back (x ∷ []) = []
pop_back (x ∷ y ∷ ys) = x ∷ pop_back (y ∷ ys)

-- `q[i] = q.back(); q.pop_back();`
unfoldable pub swap_remove : {A : Type 0} → List A → ℕ → List A
swap_remove [] i = []
swap_remove (x ∷ xs) i = pop_back (set (x ∷ xs) i (back x xs))

unfoldable pub empty_queue : ℕ → GlobalQueue
empty_queue cap = record { q = []; age_cap = cap; forced = 0 }

unfoldable pub push : Request → GlobalQueue → GlobalQueue
push r g = record g { q = g.q ++ r ∷ [] }

-- The mark is `oldest`, `none` while `best < 0`.
abbrev pub oldest_test : ℕ → ℕ → Option ℕ → Request → Bool
oldest_test cap now oldest r =
    ltb (r.arrival + cap) now && elim oldest [ none ↦ true | some a ↦ ltb r.arrival a ]

abbrev pub arrival_mark : Request → Option ℕ
arrival_mark r = some r.arrival

unfoldable pub find_oldest_aged : ℕ → GlobalQueue → Option (ℕ × Request)
unfolding scan
find_oldest_aged now g = scan (oldest_test g.age_cap now) arrival_mark 0 none none g.q

-- The request at the index, and the queue without it.
unfoldable pub take : ℕ × Request → GlobalQueue → Option Request × GlobalQueue
unfolding swap_remove
take p g = (some p.1, record g { q = swap_remove g.q p.0 })

-- `mx` starts at 0, so a request from the future, of negative wait, never counts.
unfoldable pub max_wait_from : ℕ → ℕ → List Request → ℕ
max_wait_from now mx [] = mx
max_wait_from now mx (r ∷ rs) =
    let w = now - r.arrival in max_wait_from now (if ltb mx w then w else mx) rs

unfoldable pub max_wait : ℕ → GlobalQueue → ℕ
unfolding max_wait_from
max_wait now g = max_wait_from now 0 g.q

module _ {W : Type 0} ⦃d : Double W⦄ where
  abbrev pub fit_test : W → ℤ → W → Request → Bool
  fit_test ideal room best_dist r =
      not (ltb_ℤ room (pos r.prompt)) && d.lt (dist ideal r.prompt) best_dist

  abbrev pub prompt_mark : W → Request → W
  prompt_mark ideal r = dist ideal r.prompt

  unfoldable pub find_near : W → ℤ → GlobalQueue → Option (ℕ × Request)
  unfolding scan
  find_near ideal room g = scan (fit_test ideal room) (prompt_mark ideal) 0 far none g.q

  unfoldable pub pull_near : W → ℤ → GlobalQueue → Option Request × GlobalQueue
  unfolding find_near take
  pull_near ideal room g = elim (find_near ideal room g) [ none ↦ (none, g) | some p ↦ take p g ]

  unfoldable pub pull_slot : W → ℤ → ℕ → GlobalQueue → Option Request × GlobalQueue
  unfolding find_oldest_aged pull_near take
  pull_slot ideal room now g = elim (find_oldest_aged now g) [
    | some p ↦ take p (record g { forced = g.forced + 1 })
    | none ↦ pull_near ideal room g
  ]
