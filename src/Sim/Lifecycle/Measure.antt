-- ===== src/Sim/Lifecycle/Measure.antt =====
-- The measurements of puls-engine/sim/lifecycle.cpp: what a node adds to the sums of a round.
use puls_rfc.Prelude.{
  ℕ, ◌+◌, Bool, true, false, Option, none, some, List, map, pos, leb, ◌==◌, length, get_elem?,
  sum_by, if◌then◌else◌,
}
use puls_rfc.Double.{Double}
use puls_rfc.OperatingPoint.{OperatingPoint}
use puls_rfc.Sim.Workload.{LengthClass, short, mid, long, cls}
use puls_rfc.Sim.Lifecycle.Prefill.{SimPrefill, ChunkBatch}
use puls_rfc.Sim.Lifecycle.Decode.{SimDecoder, live_kv, DecodeBatch}

-- A node: its decoders, its prefills, the finished prefills, and the source of its healing.
pub record LifeNode (S : Type 0) : Type 0 where
  pub dec : List SimDecoder
  pub pf : List SimPrefill
  pub ready : List SimPrefill
  pub source : S

-- How many of a pool have waited `age_cap` rounds.
unfoldable pub aged : ℕ → List ℕ → ℕ
aged age_cap waits = sum_by (λ w. if leb age_cap w then 1 else 0) waits

unfoldable pub in_class : LengthClass → List SimDecoder → ℕ
unfolding cls
in_class c pool = sum_by (λ q. same c (cls q.prompt)) pool
  where
    same : LengthClass → LengthClass → ℕ
    same short short = 1
    same mid mid = 1
    same long long = 1
    same _ _ = 0

-- The measurements, summed over nodes (`r...`) or over rounds (`acc...`).
pub record Sums (W : Type 0) : Type 0 where
  pub dec_hit : W
  pub dec_dev : W
  pub pf_hit : W
  pub pf_dev : W
  pub pf1_hit : W
  pub pf1_dev : W
  pub pf2_hit : W
  pub pf2_dev : W
  pub dec_mean : W
  pub dec_pool : W
  pub ready : W
  pub pf_pool : W
  pub resid : W × W × W
  pub aged_dec : W
  pub aged_pf : W
  pub dec_forced : W
  pub dec_sel : W
  pub max_dev : W
  pub miss_dev_sum : W
  pub miss_count : ℕ
  pub b1_cm : ℕ
  pub b1_dm : ℕ
  pub b2_cm : ℕ
  pub b2_dm : ℕ

module _ {W : Type 0} ⦃d : Double W⦄ where
  abbrev pub nat : ℕ → W
  nat n = d.of_int (pos n)

  abbrev pub no_sums : Sums W
  no_sums = record {
    dec_hit = nat 0;
    dec_dev = nat 0;
    pf_hit = nat 0;
    pf_dev = nat 0;
    pf1_hit = nat 0;
    pf1_dev = nat 0;
    pf2_hit = nat 0;
    pf2_dev = nat 0;
    dec_mean = nat 0;
    dec_pool = nat 0;
    ready = nat 0;
    pf_pool = nat 0;
    resid = (nat 0, nat 0, nat 0);
    aged_dec = nat 0;
    aged_pf = nat 0;
    dec_forced = nat 0;
    dec_sel = nat 0;
    max_dev = nat 0;
    miss_dev_sum = nat 0;
    miss_count = 0;
    b1_cm = 0;
    b1_dm = 0;
    b2_cm = 0;
    b2_dm = 0;
  }

  -- `empty() ? 0 : (double)n / size()`
  abbrev pub share : ℕ → ℕ → W
  share n size = if size == 0 then nat 0 else d.div (nat n) (nat size)

  abbrev pub flag : Bool → W
  flag b = if b then nat 1 else nat 0

  abbrev pub half : W → W → W
  half a b = d.div (d.add a b) (nat 2)

  unfoldable pub note_prefill :
      OperatingPoint W → List SimPrefill → ChunkBatch W × ChunkBatch W → Sums W → Sums W
  unfolding aged
  note_prefill op pf (one, two) r = record r {
    aged_pf = d.add r.aged_pf (share (aged op.age_cap (map (λ q. q.wait) pf)) (length pf));
    pf1_hit = d.add r.pf1_hit (flag one.hit);
    pf1_dev = d.add r.pf1_dev one.dev;
    pf2_hit = d.add r.pf2_hit (flag two.hit);
    pf2_dev = d.add r.pf2_dev two.dev;
    pf_hit = d.add r.pf_hit (half (flag one.hit) (flag two.hit));
    pf_dev = d.add r.pf_dev (half one.dev two.dev);
  }

  abbrev pub worse : W → W → W
  worse dev mx = if d.lt mx dev then dev else mx

  -- A batch that misses, by count or by deviation, in the counters of its place.
  unfoldable pub note_miss : OperatingPoint W → Bool → DecodeBatch W → Sums W → Sums W
  note_miss op second b r =
      let r1 = record r { max_dev = worse b.dev r.max_dev } in
      let r2 = record r1 {
        miss_dev_sum = d.add r.miss_dev_sum b.dev;
        miss_count = r.miss_count + 1;
      } in
      let full = length b.selected == op.decode_count_target in
      if b.hit
      then r1
      else (if second
          then (if full
              then record r2 { b2_dm = r.b2_dm + 1 }
              else record r2 { b2_cm = r.b2_cm + 1 })
          else (if full
              then record r2 { b1_dm = r.b1_dm + 1 }
              else record r2 { b1_cm = r.b1_cm + 1 }))

  -- What is measured of the two batches and of the pool they are chosen from. Where there is no
  -- second batch, its deviation is 1 and it is no hit.
  unfoldable pub note_decode :
      OperatingPoint W
      → List SimDecoder
      → DecodeBatch W × Option (DecodeBatch W) × List Bool
      → Sums W
      → Sums W
  unfolding note_miss aged in_class
  note_decode op pool (one, two, used) r =
      let dev2 : W = elim two [ none ↦ nat 1 | some b ↦ b.dev ] in
      let hit2 : Bool = elim two [ none ↦ false | some b ↦ b.hit ] in
      let bit : Bool → ℕ = λ h. if h then 1 else 0 in
      let forced : ℕ =
        sum_by
          (λ i. elim (get_elem? pool i) [
            | none ↦ 0
            | some q ↦ if leb op.age_cap q.wait then 1 else 0
          ])
          one.selected in
      let r1 = note_miss op false one r in
      let r2 : Sums W = elim two [ none ↦ r1 | some b ↦ note_miss op true b r1 ] in
      let size = length pool in
      let (a, b, c) = r.resid in
      record r2 {
        dec_forced = d.add r.dec_forced (nat forced);
        dec_sel = d.add r.dec_sel (nat (length one.selected));
        dec_mean = d.add r.dec_mean (share (sum_by live_kv pool) size);
        resid = (
          d.add a (share (in_class short pool) size),
          d.add b (share (in_class mid pool) size),
          d.add c (share (in_class long pool) size),
        );
        aged_dec = d.add r.aged_dec (share (aged op.age_cap (map (λ q. q.wait) pool)) size);
        dec_hit = d.add r.dec_hit (d.div (nat (bit one.hit + bit hit2)) (nat 2));
        dec_dev = d.add r.dec_dev (half one.dev dev2);
      }

  unfoldable pub note_sizes : {S : Type 0} → LifeNode S → Sums W → Sums W
  note_sizes n r = record r {
    dec_pool = d.add r.dec_pool (nat (length n.dec));
    ready = d.add r.ready (nat (length n.ready));
    pf_pool = d.add r.pf_pool (nat (length n.pf));
  }
