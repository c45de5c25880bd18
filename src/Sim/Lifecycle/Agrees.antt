-- ===== src/Sim/Lifecycle/Agrees.antt =====
-- The decode part of puls-engine/sim/lifecycle.cpp beside `NodeScheduler::advance_round` of
-- puls-engine/core/node_scheduler.cpp, which its comments name as the original.
use mathlib.Core.List.{map-append}
use puls_rfc.Prelude.{
  ℕ, ◌+◌, ◌*◌, ◌≡◌, refl, inl, inr, Bool, none, some, List, [], ◌∷◌, ◌++◌, map, ℤ, pos, leb, arith,
  length, ap, sym, ◌∙◌, length-map, Bool-cases, Option-cases,
}
use puls_rfc.Double.{Double}
use puls_rfc.OperatingPoint.{OperatingPoint}
use puls_rfc.RequestSource.{RequestSource, PulledRequest}
use puls_rfc.Node.{
  NodeDecoder, NodeScheduler, admitted, round_marks, advance_round, pull_into, to_decoder,
  node_cap_room,
}
use puls_rfc.Node
use puls_rfc.Sim.Lifecycle.Decode.{
  SimDecoder, to_steering, Tally, finish, advance, retire, Filling, new_decoder,
  compose_decode_batch, decode_batches, admit_hole, heal, absorb, decode_round,
}

abbrev pub as_node : SimDecoder → NodeDecoder
as_node q = record { prompt = q.prompt; dtot = q.dtot; dec = q.dec; wait = q.wait }

abbrev pub as_scheduler : {S : Type 0} → Filling S → NodeScheduler S
as_scheduler f = record { source = f.source; pool = map as_node f.pool }

map-to_decoder : (qs : List SimDecoder) → map to_decoder (map as_node qs) ≡ map to_steering qs
map-to_decoder [] = refl
map-to_decoder (q ∷ qs) = ap (◌∷◌ (to_steering q)) (map-to_decoder qs)

advance-as_node :
    (us : List Bool) (qs : List SimDecoder)
    → map as_node (advance us qs) ≡ Node.advance us (map as_node qs)
unfolding advance Node.advance
advance-as_node [] qs = refl
advance-as_node (u ∷ us) [] = refl
advance-as_node (u ∷ us) (q ∷ qs) = elim (Bool-cases u) [
  | inl on ↦ rw (on, advance-as_node us qs) refl
  | inr off ↦ rw (off, advance-as_node us qs) refl
]

retire-as_node :
    (qs : List SimDecoder) (t : Tally)
    → (let (holes, keep, t') = retire qs t in
        let (holes', keep') = Node.retire (map as_node qs) in
        (holes ≡ holes')
        × (map as_node keep ≡ keep')
        × (t'.completions ≡ t.completions + length holes))
unfolding retire Node.retire
retire-as_node [] t = (refl, refl, omega arith)
retire-as_node (q ∷ qs) t = elim (Bool-cases (leb q.dtot q.dec)) [
  | inl done ↦
      let (holes, keep, n) = retire-as_node qs (finish q t) in
      rw (done, retire, Node.retire) (ap (◌∷◌ q.prompt) holes, keep, omega (arith, n))
  | inr more ↦
      let (holes, keep, n) = retire-as_node qs t in
      rw (more, retire, Node.retire) (holes, ap (◌∷◌ (as_node q)) keep, n)
]

module _ {W : Type 0} ⦃d : Double W⦄ (op : OperatingPoint W) where
  marks-as_node :
      (qs : List SimDecoder) → (decode_batches op qs).2 ≡ round_marks op (map as_node qs)
  unfolding decode_batches compose_decode_batch round_marks Node.compose_decode_batch
  marks-as_node qs = elim (Bool-cases (leb (2 * op.decode_count_target) (length qs))) [
    | inl two ↦ rw (map-to_decoder qs, length-map as_node qs, two) refl
    | inr one ↦ rw (map-to_decoder qs, length-map as_node qs, one) refl
  ]

  module _ {S : Type 0} (src : RequestSource W S) where
    -- A source that has nothing for a hole has nothing for the next ones either.
    abbrev pub StaysDry : Type 0
    StaysDry =
        (room : ℤ) (ideal ideal' : W) (s : S)
        → (src.pull_near ideal room s).0 ≡ none
        → src.pull_near ideal' room (src.pull_near ideal room s).1
          ≡ (none, (src.pull_near ideal room s).1)

    heal-dry :
        (holes : List ℕ) (n : NodeScheduler S)
        → ((ideal : W) → src.pull_near ideal (node_cap_room op) n.source ≡ (none, n.source))
        → Node.heal op src holes n ≡ n
    unfolding Node.heal pull_into
    heal-dry [] n dry = refl
    heal-dry (hole ∷ holes) n dry = rw (dry (d.of_int (pos hole))) (heal-dry holes n dry)

    abbrev pub unready : List SimDecoder → S → Tally → Filling S
    unready pool s t = record { pool = pool; ready = []; source = s; tally = t }

    admit_hole-none :
        (hole : ℕ) (pool : List SimDecoder) (s : S)
        → (let r = src.pull_near (d.of_int (pos hole)) (node_cap_room op) s in
            r.0 ≡ none → admit_hole op src hole pool s ≡ (none, pool, r.1))
    unfolding admit_hole node_cap_room
    admit_hole-none hole pool s e = rw (e, admit_hole) refl

    admit_hole-some :
        (hole : ℕ) (pool : List SimDecoder) (s : S) (q : PulledRequest)
        → (let r = src.pull_near (d.of_int (pos hole)) (node_cap_room op) s in
            r.0 ≡ some q
            → admit_hole op src hole pool s
              ≡ (some q.prompt, pool ++ new_decoder q.prompt q.dtot ∷ [], r.1))
    unfolding admit_hole node_cap_room
    admit_hole-some hole pool s q e = rw (e, admit_hole) refl

    heal-as_node :
        (holes : List ℕ) (pool : List SimDecoder) (s : S) (t : Tally)
        → StaysDry
        → (let f = heal op src holes (unready pool s t) in
            (as_scheduler f ≡ Node.heal op src holes (as_scheduler (unready pool s t)))
            × (f.ready ≡ [])
            × (f.tally.completions ≡ t.completions))
    unfolding heal Node.heal pull_into
    heal-as_node [] pool s t stays = (refl, refl, refl)
    heal-as_node (hole ∷ holes) pool s t stays =
        let ideal = d.of_int (pos hole) in
        let r = src.pull_near ideal (node_cap_room op) s in
        elim (Option-cases r.0) [
          | inl e ↦
              rw (admit_hole-none hole pool s e, e, heal, Node.heal, admit_hole-none hole pool s e)
                (
                  sym (
                      heal-dry holes (as_scheduler (unready pool r.1 t))
                        (λ ideal'. stays (node_cap_room op) ideal ideal' s e)),
                  refl,
                  refl,
                )
          | inr (q, e) ↦
              rw
                (
                  admit_hole-some hole pool s q e,
                  e,
                  heal,
                  Node.heal,
                  admit_hole-some hole pool s q e,
                  sym (map-append as_node pool (new_decoder q.prompt q.dtot ∷ [])),
                )
                (heal-as_node holes (pool ++ new_decoder q.prompt q.dtot ∷ []) r.1 _ stays)
        ]

    -- With no prefill finished, and a source that once dry stays dry, the decode part of a round of the
    -- lifecycle simulator does to the pool and the source what `advance_round` does, and counts as
    -- completed what that returns.
    pub decode_round-advance_round :
        (pool : List SimDecoder) (s : S) (t : Tally)
        → StaysDry
        → (let f = decode_round op src (decode_batches op pool).2 (unready pool s t) in
            let (done, n) = advance_round op src (as_scheduler (unready pool s t)) in
            (as_scheduler f ≡ n) × (f.ready ≡ []) × (f.tally.completions ≡ t.completions + done))
    unfolding decode_round advance_round absorb
    decode_round-advance_round pool s t stays =
        let used = (decode_batches op pool).2 in
        let (holes, keep, n) = retire-as_node (advance used pool) t in
        let r = retire (advance used pool) t in
        let (same, empty, kept) = heal-as_node r.0 r.1 s r.2 stays in
        rw (empty, sym (marks-as_node pool), sym (advance-as_node used pool), sym holes, sym keep)
          (same, empty, kept ∙ n)
