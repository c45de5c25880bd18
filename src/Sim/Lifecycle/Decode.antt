-- ===== src/Sim/Lifecycle/Decode.antt =====
-- The decode part of a node's round in puls-engine/sim/lifecycle.cpp: two batches, the advance, the
-- retirement, and the healing from the finished prefills before the source.
use puls_rfc.Prelude.{
  ℕ, zero, suc, ◌+◌, ◌*◌, Bool, true, false, ◌&&◌, Option, none, some, List, [], ◌∷◌, ◌++◌, map,
  pos, ◌*ℤ◌, ltb, leb, ◌==◌, length, get_elem?, replicate, sum_by, if◌then◌else◌,
}
use puls_rfc.Double.{Double}
use puls_rfc.OperatingPoint.{OperatingPoint}
use puls_rfc.RequestSource.{RequestSource}
use puls_rfc.Steering.{Decoder, steer_decode_set}
use puls_rfc.Queue.{back, pop_back}
use puls_rfc.Sim.Workload.{LengthClass, short, mid, long, cls}
use puls_rfc.Sim.Lifecycle.Prefill.{SimPrefill}

pub record SimDecoder : Type 0 where
  pub prompt : ℕ
  pub dtot : ℕ
  pub dec : ℕ
  pub wait : ℕ

abbrev pub live_kv : SimDecoder → ℕ
live_kv q = q.prompt + q.dec

abbrev pub to_steering : SimDecoder → Decoder
to_steering q = record { kv_length = live_kv q; wait = q.wait }

-- The counters of a class: short, mid and long.
abbrev pub Classes : Type 0
Classes = ℕ × ℕ × ℕ

abbrev pub count_cls : LengthClass → Classes → Classes
count_cls short (a, b, c) = (a + 1, b, c)
count_cls mid (a, b, c) = (a, b + 1, c)
count_cls long (a, b, c) = (a, b, c + 1)

-- What the nodes count together.
pub record Tally : Type 0 where
  pub transitions : ℕ
  pub completions : ℕ
  pub admit_cls : Classes
  pub comp_cls : Classes

-- A batch's selection, its deviation from the target, and whether it is a hit.
pub record DecodeBatch (W : Type 0) : Type 0 where
  pub selected : List ℕ
  pub dev : W
  pub hit : Bool

unfoldable pub advance : List Bool → List SimDecoder → List SimDecoder
advance (u ∷ us) (q ∷ qs) =
    (if u then record q { dec = q.dec + 1; wait = 0 } else record q { wait = q.wait + 1 })
    ∷ advance us qs
advance _ qs = qs

abbrev pub finish : SimDecoder → Tally → Tally
finish q t = record t {
  completions = t.completions + 1;
  comp_cls = count_cls (cls q.prompt) t.comp_cls;
}

-- The prompts of the finished decoders, and the decoders kept.
unfoldable pub retire : List SimDecoder → Tally → List ℕ × List SimDecoder × Tally
retire [] t = ([], [], t)
retire (q ∷ qs) t =
    let finished = leb q.dtot q.dec in
    let (holes, keep, t') = retire qs (if finished then finish q t else t) in
    if finished then (q.prompt ∷ holes, keep, t') else (holes, q ∷ keep, t')

-- What healing changes in a node.
pub record Filling (S : Type 0) : Type 0 where
  pub pool : List SimDecoder
  pub ready : List SimPrefill
  pub source : S
  pub tally : Tally

abbrev pub new_decoder : ℕ → ℕ → SimDecoder
new_decoder prompt dtot = record { prompt = prompt; dtot = dtot; dec = 0; wait = 0 }

-- The last of the finished prefills `q ∷ qs` becomes a decoder.
unfoldable pub transfer : {S : Type 0} → SimPrefill → List SimPrefill → Filling S → Filling S
unfolding cls
transfer q qs f =
    let t = back q qs in
    record f {
      pool = f.pool ++ new_decoder t.prompt t.dtot ∷ [];
      ready = pop_back (q ∷ qs);
      tally = record f.tally {
        transitions = f.tally.transitions + 1;
        admit_cls = count_cls (cls t.prompt) f.tally.admit_cls;
      };
    }

module _ {W : Type 0} ⦃d : Double W⦄ (op : OperatingPoint W) where
  unfoldable pub compose_decode_batch : List SimDecoder → List Bool → DecodeBatch W × List Bool
  unfolding steer_decode_set
  compose_decode_batch pool used =
      let (selected, used') = steer_decode_set op (map to_steering pool) used in
      let sum : ℕ =
        sum_by (λ i. elim (get_elem? pool i) [ none ↦ 0 | some q ↦ live_kv q ]) selected in
      let target = d.of_int (pos op.kv_operating_target) in
      let dev = d.div (d.fabs (d.sub (d.of_int (pos sum)) target)) target in
      (
        record {
          selected = selected;
          dev = dev;
          hit = (length selected == op.decode_count_target) && d.le dev op.idle_band;
        },
        used',
      )

  -- One batch, or two over a large enough pool, and the marks they leave.
  unfoldable pub decode_batches :
      List SimDecoder → DecodeBatch W × Option (DecodeBatch W) × List Bool
  unfolding compose_decode_batch
  decode_batches pool =
      let (one, used) = compose_decode_batch pool (replicate (length pool) false) in
      let (two, used') = compose_decode_batch pool used in
      if leb (2 * op.decode_count_target) (length pool)
      then (one, some two, used')
      else (one, none, used)

  module _ {S : Type 0} (src : RequestSource W S) where
    -- `none` is the return value -1.
    unfoldable pub admit_hole : ℕ → List SimDecoder → S → Option ℕ × List SimDecoder × S
    admit_hole hole pool s =
        let cap_room = pos op.decode_pool *ℤ d.trunc op.ctx_balance *ℤ pos 4 in
        let (r, s') = src.pull_near (d.of_int (pos hole)) cap_room s in
        elim r [
          | none ↦ (none, pool, s')
          | some q ↦ (some q.prompt, pool ++ new_decoder q.prompt q.dtot ∷ [], s')
        ]

    -- Each hole takes the last finished prefill, or else what the source has nearest to it; a source
    -- that is dry ends the healing.
    unfoldable pub heal : List ℕ → Filling S → Filling S
    unfolding transfer admit_hole cls
    heal [] f = f
    heal (hole ∷ holes) f = elim f.ready [
      | q ∷ qs ↦ heal holes (transfer q qs f)
      | [] ↦
          let (p, pool, s) = admit_hole hole f.pool f.source in
          let f' = record f { pool = pool; source = s } in
          elim p [
            | none ↦ f'
            | some prompt ↦ heal holes (record f' {
              tally = record f.tally { admit_cls = count_cls (cls prompt) f.tally.admit_cls };
            })
          ]
    ]

    -- The finished prefills take the slots that are left. Each pass takes one, so as many passes as
    -- there are of them are enough.
    unfoldable pub absorb : ℕ → Filling S → Filling S
    unfolding transfer
    absorb zero f = f
    absorb (suc fuel) f = elim f.ready [
      | [] ↦ f
      | q ∷ qs ↦ elim (ltb (length f.pool) op.decode_pool) [
        | true ↦ absorb fuel (transfer q qs f)
        | false ↦ f
      ]
    ]

    -- Advance by the marks, retire, heal and absorb.
    unfoldable pub decode_round : List Bool → Filling S → Filling S
    unfolding advance retire heal absorb
    decode_round used f =
        let (holes, keep, t) = retire (advance used f.pool) f.tally in
        let healed = heal holes (record f { pool = keep; tally = t }) in
        absorb (length healed.ready) healed
