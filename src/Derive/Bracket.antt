-- ===== src/Derive/Bracket.antt =====
-- What the bisections of puls-engine/core/derive.cpp establish: the sign change stays bracketed,
-- and the bracket closes.
use puls_rfc.Prelude.{
  ℕ, zero, suc, ◌+◌, ◌^◌, ◌≤◌, ◌≡◌, refl, sym, subst, ◌⊎◌, inl, inr, Bool, true, false, pos,
  Bool-cases, arith,
}
use puls_rfc.Double.{Double}
use puls_rfc.OperatingPoint.{ModelSpec, HwSpec, DeriveOptions}
use puls_rfc.Derive.Width.{IsHalving, bisect-gap}
use puls_rfc.Derive.Defs.{
  midpoint, bisect, extend, decode_gap, ndec_ffn_eq_gpua, like_at_lo, ctx_bracket,
  derive_operating_point,
}

le_suc : {a b : ℕ} → a ≤ b → a ≤ b + 1
le_suc h = omega arith

module _ {W : Type 0} ⦃d : Double W⦄ where
  -- An end is the one that the search began with, or it has passed (failed) the test.
  abbrev pub IsBracket : (W → Bool) → W → W → W × W → Type 0
  IsBracket test lo hi r = ((r.0 ≡ lo) ⊎ (test r.0 ≡ true)) × ((r.1 ≡ hi) ⊎ (test r.1 ≡ false))

  pub bisect-IsBracket :
      (test : W → Bool) (k : ℕ) (lo hi : W) → IsBracket test lo hi (bisect test k lo hi)
  unfolding bisect
  bisect-IsBracket test zero lo hi = (inl refl, inl refl)
  bisect-IsBracket test (suc k) lo hi =
      let mid = midpoint lo hi in
      elim (Bool-cases (test mid)) [
        | inl up ↦ rw (up, bisect) (raise up (bisect-IsBracket test k mid hi))
        | inr down ↦ rw (down, bisect) (lower down (bisect-IsBracket test k lo mid))
      ]
    where
      raise :
          {mid : W} {r : W × W} → test mid ≡ true → IsBracket test mid hi r → IsBracket test lo hi r
      raise up (inl same, right) = (inr (rw same up), right)
      raise up (inr passed, right) = (inr passed, right)

      lower :
          {mid : W} {r : W × W}
          → test mid ≡ false
          → IsBracket test lo mid r
          → IsBracket test lo hi r
      lower down (left, inl same) = (left, inr (rw same down))
      lower down (left, inr failed) = (left, inr failed)

  -- The test holds at `hi`, `2 hi`, ..., `k` values in all.
  abbrev pub HoldsOn : (W → Bool) → ℕ → W → Type 0
  HoldsOn test zero hi = Unit {0}
  HoldsOn test (suc k) hi = (test hi ≡ true) × HoldsOn test k (d.mul hi (d.decimal 2 0))

  pub extend_lem :
      (test : W → Bool) (k : ℕ) (hi : W) → (test (extend test k hi) ≡ false) ⊎ HoldsOn test k hi
  unfolding extend
  extend_lem test zero hi = inr tt
  extend_lem test (suc k) hi = elim (Bool-cases (test hi)) [
    | inl more ↦ elim (extend_lem test k (d.mul hi (d.decimal 2 0))) [
      | inl stop ↦ rw (more, extend) (inl stop)
      | inr all ↦ inr (more, all)
    ]
    | inr stop ↦ rw (stop, extend) (inl stop)
  ]

  -- `hi`, doubled `k` times.
  abbrev pub doubled : ℕ → W → W
  doubled zero hi = hi
  doubled (suc k) hi = doubled k (d.mul hi (d.decimal 2 0))

  extend-doubled :
      (test : W → Bool) (k : ℕ) (hi : W) → (j : ℕ) × (j ≤ k) × (extend test k hi ≡ doubled j hi)
  unfolding extend
  extend-doubled test zero hi = (0, omega arith, refl)
  extend-doubled test (suc k) hi = elim (Bool-cases (test hi)) [
    | inl more ↦
        let (j, few, same) = extend-doubled test k (d.mul hi (d.decimal 2 0)) in
        rw (more, extend) (suc j, omega arith, same)
    | inr stop ↦ rw (stop, extend) (0, omega arith, refl)
  ]

  module _ (m : ModelSpec) (hw : HwSpec W) (prefill_tokens : ℕ) (In : W → Type 0) (gap : W → W → ℕ)
      (halving : IsHalving W In gap) where
    -- The decode count for a context is 0 where the FFN is slower than GPU-A without decoders.
    -- Elsewhere it is the midpoint of a bracket whose ends are at most two units apart: at its lower
    -- end, unless that is 0, the FFN is faster than GPU-A, and at its upper end, unless that is a
    -- million, it is not. This holds for numbers whose midpoints halve a gap up to a unit, and of which
    -- 0 and a million are at most 2^200 units apart.
    pub ndec_ffn_eq_gpua_lem :
        (ctx : W)
        → In (d.of_int (pos 0))
        → In (d.decimal 1_000_000 0)
        → gap (d.of_int (pos 0)) (d.decimal 1_000_000 0) ≤ 2 ^ 200
        → (let residue = decode_gap m hw prefill_tokens ctx in
            let start = d.of_int (pos 0) in
            (d.lt start (residue start) ≡ true) × (ndec_ffn_eq_gpua m hw prefill_tokens ctx ≡ start)
            ⊎ ((r : W × W) × (d.lt start (residue start) ≡ false)
                × (ndec_ffn_eq_gpua m hw prefill_tokens ctx ≡ midpoint r.0 r.1)
                × IsBracket (λ n. d.lt (residue n) start) start (d.decimal 1_000_000 0) r
                × (gap r.0 r.1 ≤ 2)))
    unfolding ndec_ffn_eq_gpua
    ndec_ffn_eq_gpua_lem ctx in_lo in_hi wide =
        let start = d.of_int (pos 0) in
        let test : W → Bool = λ n. d.lt (decode_gap m hw prefill_tokens ctx n) start in
        elim (Bool-cases (d.lt start (decode_gap m hw prefill_tokens ctx start))) [
          | inl degenerate ↦ inl (degenerate, rw (degenerate, ndec_ffn_eq_gpua))
          | inr balanced ↦ inr (
            bisect test 200 start (d.decimal 1_000_000 0),
            balanced,
            rw (balanced, ndec_ffn_eq_gpua),
            bisect-IsBracket test 200 start (d.decimal 1_000_000 0),
            bisect-gap In gap halving test 200 start (d.decimal 1_000_000 0) in_lo in_hi
                (le_suc wide),
          )
        ]

    -- The derived context is the midpoint of a bracket whose ends are at most two units apart: the
    -- residual at its lower end has the sign that it has at 1000, and at its upper end the other sign,
    -- unless the residual has the sign of 1000 at every one of the 24 doublings from 400000 on. This
    -- holds for numbers whose midpoints halve a gap up to a unit, and of which 1000 is at most 2^200
    -- units from 400000 and from its doublings, up to 24 of them.
    pub derive_operating_point-bracket :
        (opt : DeriveOptions W)
        → In (d.decimal 1000 0)
        → ((j : ℕ)
            → j ≤ 24
            → In (doubled j (d.decimal 400_000 0))
              × (gap (d.decimal 1000 0) (doubled j (d.decimal 400_000 0)) ≤ 2 ^ 200))
        → (let like = like_at_lo m hw prefill_tokens in
            (r : W × W) × ((derive_operating_point m hw prefill_tokens opt).ctx_balance
              ≡ midpoint r.0 r.1)
            × ((r.0 ≡ d.decimal 1000 0) ⊎ (like r.0 ≡ true))
            × ((like r.1 ≡ false) ⊎ HoldsOn like 24 (d.decimal 400_000 0))
            × (gap r.0 r.1 ≤ 2))
    unfolding derive_operating_point ctx_bracket
    derive_operating_point-bracket opt in_lo reach =
        let like = like_at_lo m hw prefill_tokens in
        let lo = d.decimal 1000 0 in
        let top = extend like 24 (d.decimal 400_000 0) in
        let (left, right) = bisect-IsBracket like 200 lo top in
        let (j, few, same) = extend-doubled like 24 (d.decimal 400_000 0) in
        let (in_top, wide) : In top × (gap lo top ≤ 2 ^ 200) =
          subst (λ hi. In hi × (gap lo hi ≤ 2 ^ 200)) (sym same) (reach j few) in
        (
          ctx_bracket m hw prefill_tokens,
          refl,
          left,
          elim right [
            | inl same ↦ rw same (extend_lem like 24 (d.decimal 400_000 0))
            | inr other ↦ inl other
          ],
          bisect-gap In gap halving like 200 lo top in_lo in_top (le_suc wide),
        )
