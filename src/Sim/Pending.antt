-- ===== src/Sim/Pending.antt =====
-- `PendingReturns` of puls-engine/sim/harness.h: the multimap from rounds to requests is a list in
-- ascending order, and `emplace` puts an entry behind those of an equal key.
use puls_rfc.Prelude.{
  ◌+◌, length, length-append, ℕ, ◌<◌, ◌≤◌, ◌≡◌, refl, inl, inr, List, [], ◌∷◌, ◌++◌, ltb, leb,
  arith, All, if◌then◌else◌, Bool-cases, ap, map,
}
use puls_rfc.Queue.{Request, GlobalQueue, push}

abbrev pub PendingReturns : Type 0
PendingReturns = List (ℕ × Request)

unfoldable pub add : ℕ → Request → PendingReturns → PendingReturns
add round r [] = (round, r) ∷ []
add round r ((k, s) ∷ rest) =
    if ltb round k then (round, r) ∷ (k, s) ∷ rest else (k, s) ∷ add round r rest

-- The requests whose round has come, and what is left.
unfoldable pub due : ℕ → PendingReturns → List Request × PendingReturns
due now [] = ([], [])
due now ((k, r) ∷ rest) =
    let (out, later) = due now rest in if leb k now then (r ∷ out, later) else ([], (k, r) ∷ rest)

-- The drivers push what is due, in order.
unfoldable pub push_all : List Request → GlobalQueue → GlobalQueue
unfolding push
push_all [] g = g
push_all (r ∷ rs) g = push_all rs (push r g)

abbrev pub IsAscending : PendingReturns → Type 0
IsAscending [] = Unit {0}
IsAscending (p ∷ ps) = All (λ q. p.0 ≤ q.0) ps × IsAscending ps

All-add :
    (low round : ℕ) (r : Request) (ps : PendingReturns)
    → low ≤ round
    → All (λ q. low ≤ q.0) ps
    → All (λ q. low ≤ q.0) (add round r ps)
unfolding add
All-add low round r [] h all = (h, tt)
All-add low round r (p ∷ ps) h (first, all) = elim (Bool-cases (ltb round p.0)) [
  | inl before ↦ rw (before, add) (h, (first, all))
  | inr after ↦ rw (after, add) (first, All-add low round r ps h all)
]

All-above :
    (low high : ℕ) (ps : PendingReturns)
    → low ≤ high
    → All (λ q. high ≤ q.0) ps
    → All (λ q. low ≤ q.0) ps
All-above low high [] h all = tt
All-above low high (p ∷ ps) h (first, all) = (omega arith, All-above low high ps h all)

pub add-IsAscending :
    (round : ℕ) (r : Request) (ps : PendingReturns) → IsAscending ps → IsAscending (add round r ps)
unfolding add
add-IsAscending round r [] s = (tt, tt)
add-IsAscending round r (p ∷ ps) (first, s) = elim (Bool-cases (ltb round p.0)) [
  | inl before ↦
      rw (before, add) ((ground arith, All-above round p.0 ps (ground arith) first), (first, s))
  | inr after ↦
      rw (after, add) (All-add p.0 round r ps (ground arith) first, add-IsAscending round r ps s)
]

-- The entries that are still to come.
late : (now k : ℕ) (ps : PendingReturns) → now < k → All (λ q. k ≤ q.0) ps → All (λ q. now < q.0) ps
late now k [] h all = tt
late now k (p ∷ ps) h (first, all) = (omega arith, late now k ps h all)

-- After `add` at `round` to a map in order, `due now` hands out, in order, the requests of a front
-- part of the map whose rounds have all come; the rounds of the rest are all later than `now`, and the
-- rest is in order again.
pub due_lem :
    (now round : ℕ) (r : Request) (ps : PendingReturns)
    → IsAscending ps
    → (let (out, rest) = due now (add round r ps) in
        (came : PendingReturns) × (add round r ps ≡ came ++ rest)
        × (out ≡ map (λ q. q.1) came)
        × All (λ q. q.0 ≤ now) came
        × All (λ q. now < q.0) rest
        × IsAscending rest)
unfolding due
due_lem now round r ps s = split (add round r ps) (add-IsAscending round r ps s)
  where
    split :
        (qs : PendingReturns)
        → IsAscending qs
        → (let (out, rest) = due now qs in
            (came : PendingReturns) × (qs ≡ came ++ rest)
            × (out ≡ map (λ q. q.1) came)
            × All (λ q. q.0 ≤ now) came
            × All (λ q. now < q.0) rest
            × IsAscending rest)
    split [] s = ([], refl, refl, tt, tt, tt)
    split (q ∷ qs) (first, s) = elim (Bool-cases (leb q.0 now)) [
      | inl comes ↦
          let (came, parts, same, below, above, ordered) = split qs s in
          rw (comes, due)
            (
              q ∷ came,
              ap (λ z. q ∷ z) parts,
              ap (λ z. q.1 ∷ z) same,
              (ground arith, below),
              above,
              ordered,
            )
      | inr waits ↦
          rw (waits, due)
            ([], refl, refl, tt, (ground arith, late now q.0 qs (ground arith) first), (first, s))
    ]

pub length-add :
    (round : ℕ) (r : Request) (ps : PendingReturns) → length (add round r ps) ≡ length ps + 1
unfolding add
length-add round r [] = refl
length-add round r (p ∷ ps) = ground (arith, length-add round r ps)

pub length-push_all :
    (rs : List Request) (g : GlobalQueue) → length (push_all rs g).q ≡ length g.q + length rs
unfolding push_all push
length-push_all [] g = omega arith
length-push_all (r ∷ rs) g =
    omega (arith, length-push_all rs (push r g), length-append g.q (r ∷ []))

pub length-due :
    (now : ℕ) (ps : PendingReturns)
    → (let (out, rest) = due now ps in length out + length rest ≡ length ps)
unfolding due
length-due now [] = refl
length-due now (p ∷ ps) = elim (Bool-cases (leb p.0 now)) [
  | inl comes ↦ rw (comes, due) (omega (arith, length-due now ps))
  | inr waits ↦ rw (waits, due) (omega arith)
]
