-- ===== src/Sim/Metrics.antt =====
-- `Metrics` of puls-engine/sim/metrics.h. `print_summary` is printing.
use puls_rfc.Prelude.{
  ℕ, ◌+◌, ◌≡◌, refl, Bool, true, false, inl, inr, ◌⊎◌, not, ◌&&◌, List, [], ◌∷◌, pos, pos_part,
  ◌==◌, ltb, arith, length, get_or, if◌then◌else◌, Bool-cases,
}
use puls_rfc.Double.{Double}
use puls_rfc.OperatingPoint.{OperatingPoint}

pub record Metrics (W : Type 0) : Type 0 where
  pub batches : ℕ
  pub hits : ℕ
  pub miss : ℕ
  pub sdev_sum : W
  pub sdev_worst : W
  pub miss_dev_sum : W
  pub b1_cm : ℕ
  pub b1_dm : ℕ
  pub b2_cm : ℕ
  pub b2_dm : ℕ
  pub forced : ℕ
  pub edged : ℕ
  pub returns : ℕ
  pub hbm_hit : ℕ
  pub ssd_reload : ℕ
  pub recompute : ℕ
  pub saved_rounds : W
  pub ttft : List W
  pub pool_mean_sum : W
  pub pool_mean_n : ℕ
  pub resid : W × W × W
  pub resid_n : ℕ

module _ {W : Type 0} ⦃d : Double W⦄ where
  abbrev pub no_metrics : Metrics W
  no_metrics =
      let none_yet = d.of_int (pos 0) in
      record {
        batches = 0;
        hits = 0;
        miss = 0;
        sdev_sum = none_yet;
        sdev_worst = none_yet;
        miss_dev_sum = none_yet;
        b1_cm = 0;
        b1_dm = 0;
        b2_cm = 0;
        b2_dm = 0;
        forced = 0;
        edged = 0;
        returns = 0;
        hbm_hit = 0;
        ssd_reload = 0;
        recompute = 0;
        saved_rounds = none_yet;
        ttft = [];
        pool_mean_sum = none_yet;
        pool_mean_n = 0;
        resid = (none_yet, none_yet, none_yet);
        resid_n = 0;
      }

  -- The relative deviation of a batch's KV sum from the target.
  abbrev pub deviation : OperatingPoint W → ℕ → W
  deviation op sum_kv =
      let target = d.of_int (pos op.kv_operating_target) in
      d.div (d.fabs (d.sub (d.of_int (pos sum_kv)) target)) target

  abbrev pub is_hit : OperatingPoint W → ℕ → ℕ → Bool
  is_hit op count sum_kv =
      (count == op.decode_count_target) && d.le (deviation op sum_kv) op.idle_band

  -- The counters of a miss, by batch and by cause.
  unfoldable pub count_miss : Bool → Bool → Metrics W → Metrics W
  count_miss false true k = record k { b1_cm = k.b1_cm + 1 }
  count_miss false false k = record k { b1_dm = k.b1_dm + 1 }
  count_miss true true k = record k { b2_cm = k.b2_cm + 1 }
  count_miss true false k = record k { b2_dm = k.b2_dm + 1 }

  unfoldable pub record_batch : ℕ → ℕ → OperatingPoint W → Bool → Metrics W → Metrics W
  unfolding count_miss
  record_batch count sum_kv op b2 k =
      let dev = deviation op sum_kv in
      let counted = record k {
        batches = k.batches + 1;
        sdev_sum = d.add k.sdev_sum dev;
        sdev_worst = if d.lt k.sdev_worst dev then dev else k.sdev_worst;
      } in
      elim (is_hit op count sum_kv) [
        | true ↦ record counted { hits = k.hits + 1 }
        | false ↦
            count_miss b2 (not (count == op.decode_count_target))
              (record counted { miss = k.miss + 1; miss_dev_sum = d.add k.miss_dev_sum dev })
      ]

  -- `resid[i] += cls_frac[i]`
  abbrev pub add_three : W × W × W → W × W × W → W × W × W
  add_three (a, b, c) (x, y, z) = (d.add a x, d.add b y, d.add c z)

  unfoldable pub record_pool : W → W × W × W → Metrics W → Metrics W
  record_pool mean_kv cls_frac k = record k {
    pool_mean_sum = d.add k.pool_mean_sum mean_kv;
    pool_mean_n = k.pool_mean_n + 1;
    resid = add_three k.resid cls_frac;
    resid_n = k.resid_n + 1;
  }

  unfoldable pub insert : W → List W → List W
  insert x [] = x ∷ []
  insert x (y ∷ ys) = if d.lt y x then y ∷ insert x ys else x ∷ y ∷ ys

  unfoldable pub sort : List W → List W
  unfolding insert
  sort [] = []
  sort (x ∷ xs) = insert x (sort xs)

  -- `v[min(v.size() - 1, llround(0.99 * (v.size() - 1)))]` of the sorted samples.
  unfoldable pub p99 : List W → W
  unfolding sort
  p99 [] = d.of_int (pos 0)
  p99 (x ∷ xs) =
      let last = length xs in
      let k = pos_part (d.llround (d.mul (d.decimal 99 2) (d.of_int (pos last)))) in
      get_or (sort (x ∷ xs)) (if ltb k last then k else last) x

-- Each batch is a hit or a miss, each miss has one cause, and each diagnosis is counted twice alike.
pub record IsCounted {W : Type 0} (k : Metrics W) : Type 0 where
  pub decided : k.hits + k.miss ≡ k.batches
  pub explained : k.b1_cm + k.b1_dm + k.b2_cm + k.b2_dm ≡ k.miss
  pub sampled : k.pool_mean_n ≡ k.resid_n

module _ {W : Type 0} ⦃d : Double W⦄ where
  -- Recording a batch keeps the counters consistent: each batch is a hit or a miss, and each miss has
  -- one of four causes. A batch that is recorded as a hit is full and within the idle band.
  pub record_batch-IsCounted :
      (count sum_kv : ℕ) (op : OperatingPoint W) (b2 : Bool) (k : Metrics W)
      → IsCounted k
      → (let k' = record_batch count sum_kv op b2 k in
          IsCounted k'
          × ((k'.hits ≡ k.hits)
              ⊎ (count ≡ op.decode_count_target)
                × (d.le (deviation op sum_kv) op.idle_band ≡ true)))
  unfolding record_batch count_miss
  record_batch-IsCounted count sum_kv op b2 k v = elim (Bool-cases (is_hit op count sum_kv)) [
    | inl ok ↦
        rw (ok, record_batch)
          (
            record {
              decided = omega (arith, v.decided);
              explained = v.explained;
              sampled = v.sampled;
            },
            inr (ground arith),
          )
    | inr bad ↦ rw (bad, record_batch) (missed (not (count == op.decode_count_target)) b2)
  ]
    where
      dev : W
      dev = deviation op sum_kv

      missing : Metrics W
      missing = record k {
        batches = k.batches + 1;
        sdev_sum = d.add k.sdev_sum dev;
        sdev_worst = if d.lt k.sdev_worst dev then dev else k.sdev_worst;
        miss = k.miss + 1;
        miss_dev_sum = d.add k.miss_dev_sum dev;
      }

      missed :
          (cm b : Bool)
          → (let k' = count_miss b cm missing in
              IsCounted k'
              × ((k'.hits ≡ k.hits)
                  ⊎ (count ≡ op.decode_count_target)
                    × (d.le (deviation op sum_kv) op.idle_band ≡ true)))
      missed true false = (
        record {
          decided = omega (arith, v.decided);
          explained = omega (arith, v.explained);
          sampled = v.sampled;
        },
        inl refl,
      )
      missed false false = (
        record {
          decided = omega (arith, v.decided);
          explained = omega (arith, v.explained);
          sampled = v.sampled;
        },
        inl refl,
      )
      missed true true = (
        record {
          decided = omega (arith, v.decided);
          explained = omega (arith, v.explained);
          sampled = v.sampled;
        },
        inl refl,
      )
      missed false true = (
        record {
          decided = omega (arith, v.decided);
          explained = omega (arith, v.explained);
          sampled = v.sampled;
        },
        inl refl,
      )
