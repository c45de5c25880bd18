-- ===== src/Runtime/Conserved.antt =====
-- The requests of a node over the runtime's queue (puls-engine/runtime/runtime.cpp), and what it is
-- that none is lost, doubled or exchanged.
use mathlib.Core.List.Perm
use mathlib.Core.List.{Perm, perm_middle}
use puls_rfc.Prelude.{
  ℕ, ◌+◌, ◌≤◌, ◌≡◌, refl, inl, inr, Bool, true, false, List, [], ◌∷◌, ◌++◌, map, length,
  length-append, All, All-append, arith, Bool-cases, ap,
}
use puls_rfc.RequestSource.{PulledRequest}
use puls_rfc.Node.{NodeDecoder, NodeScheduler, admitted, is_done, advance, retire}
use puls_rfc.Runtime.Defs.{QueueSource}

-- The request that a decoder serves.
abbrev pub as_request : NodeDecoder → PulledRequest
as_request q = record { prompt = q.prompt; dtot = q.dtot }

-- The requests that are resident or wait.
abbrev pub requests : NodeScheduler QueueSource → List PulledRequest
requests n = map as_request n.pool ++ n.source

-- The decoder has generated all tokens of its request.
abbrev pub IsComplete : NodeDecoder → Type 0
IsComplete q = q.dtot ≤ q.dec

-- The requests `before` are those of `done` decoders that are complete, with those of the node.
pub record IsConserved (before : List PulledRequest) (done : ℕ) (n : NodeScheduler QueueSource)
    : Type 0 where
  pub finished : List NodeDecoder
  pub complete : All IsComplete finished
  pub counted : length finished ≡ done
  pub perm : Perm before (map as_request finished ++ requests n)

-- A request that moves from the queue to the end of the pool.
pub grown-perm :
    (pool : List NodeDecoder) (r : PulledRequest) (queue queue' : QueueSource)
    → Perm queue (r ∷ queue')
    → Perm (map as_request pool ++ queue) (map as_request (pool ++ admitted r ∷ []) ++ queue')
grown-perm [] r queue queue' p = p
grown-perm (q ∷ pool) r queue queue' p = Perm.cons (as_request q) (grown-perm pool r queue queue' p)

pub map-advance :
    (us : List Bool) (qs : List NodeDecoder) → map as_request (advance us qs) ≡ map as_request qs
unfolding advance
map-advance [] qs = refl
map-advance (u ∷ us) [] = refl
map-advance (true ∷ us) (q ∷ qs) = ap (λ rs. as_request q ∷ rs) (map-advance us qs)
map-advance (false ∷ us) (q ∷ qs) = ap (λ rs. as_request q ∷ rs) (map-advance us qs)

append-perm :
    (f f' : List NodeDecoder) (rest all : List PulledRequest)
    → Perm rest (map as_request f' ++ all)
    → Perm (map as_request f ++ rest) (map as_request (f ++ f') ++ all)
append-perm [] f' rest all p = p
append-perm (q ∷ f) f' rest all p = Perm.cons (as_request q) (append-perm f f' rest all p)

pub and_then :
    (before : List PulledRequest) (done done' : ℕ) (n n' : NodeScheduler QueueSource)
    → IsConserved before done n
    → IsConserved (requests n) done' n'
    → IsConserved before (done + done') n'
and_then before done done' n n' a b = record {
  finished = a.finished ++ b.finished;
  complete = All-append IsComplete a.finished b.finished a.complete b.complete;
  counted = omega (arith, length-append a.finished b.finished, a.counted, b.counted);
  perm = Perm.trans a.perm (append-perm a.finished b.finished (requests n) (requests n') b.perm);
}

pub retire-IsConserved :
    (qs : List NodeDecoder) (queue : QueueSource)
    → let (holes, keep) = retire qs in
      IsConserved
        (map as_request qs ++ queue)
        (length holes)
        (record { source = queue; pool = keep })
unfolding retire
retire-IsConserved [] queue = record {
  finished = [];
  complete = tt;
  counted = refl;
  perm = Perm.rfl;
}
retire-IsConserved (q ∷ qs) queue =
    let rest = retire-IsConserved qs queue in
    let kept = requests (record { source = queue; pool = (retire qs).1 }) in
    elim (Bool-cases (is_done q)) [
      | inl done ↦
          rw (done, retire)
            (record {
              finished = q ∷ rest.finished;
              complete = (ground arith, rest.complete);
              counted = omega (arith, rest.counted);
              perm = Perm.cons (as_request q) rest.perm;
            })
      | inr more ↦
          rw (more, retire)
            (record {
              finished = rest.finished;
              complete = rest.complete;
              counted = rest.counted;
              perm =
                  Perm.trans (Perm.cons (as_request q) rest.perm)
                    (Perm.symm (perm_middle (map as_request rest.finished) kept));
            })
    ]
