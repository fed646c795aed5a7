-- ===== src/Math/BaseFactor/Exact.antt =====
-- math.ts, `computeBaseFactorFromFeeBps`: its result and its loop.
use native.Mathlib.Nat.{pow-succ', div-add-mod', div-le_of_le-mul, mul-mod_left, mul_assoc, mul-one}
use native.Mathlib.Numerals.{add-one}
use dlmm_sdk.Prelude.{
  ℕ, zero, suc, ◌+◌, ◌*◌, ◌/◌, ◌%◌, ◌^◌, ◌≤◌, ◌<◌, ◌≡◌, ◌⊎◌, some, Result, ok, err, have_decimals,
  arith, ltb, ◌==◌, true, false, inl, inr, Bool-cases, ◌∙◌, ltb-false→le, ltb→lt, pos_test, ==→eq,
  Bool, false, refl, if◌then◌else◌,
}
use dlmm_sdk.Constants.{basis_point_max}
use dlmm_sdk.Math.BaseFactor.{
  u16_max, reduce_base_factor, check_base_factor, compute_base_factor_from_fee_bps,
}

-- Enough fuel: the numerator falls in each round.
reduce_base_factor_total :
    (fuel num den power : ℕ)
    → num < fuel
    → (r : Result (ℕ × ℕ)) × (reduce_base_factor fuel num den power ≡ some r)
unfolding reduce_base_factor
reduce_base_factor_total zero num den power h = elim h [ ]
reduce_base_factor_total (suc fuel) num den power h = elim (Bool-cases (ltb (u16_max * den) num)) [
  | inr low ↦ (ok (num / den, power), rw low)
  | inl high ↦ elim (Bool-cases (num % (10 * den) == 0)) [
    | inr left ↦ (err have_decimals, rw (high, left))
    | inl whole ↦
        let (r, e) = reduce_base_factor_total fuel (num / 10) den (power + 1) (ground arith) in
        (r, rw (high, whole) e)
  ]
]

-- The fraction is whole, or above the largest factor.
abbrev IsReducible : ℕ → ℕ → Type 0
IsReducible num den = (num % den ≡ 0) ⊎ (u16_max * den < num)

tenth_of_multiple :
    (num den : ℕ) → 0 < den → num % (10 * den) ≡ 0 → (num / 10 * 10 ≡ num) × (num / 10 % den ≡ 0)
tenth_of_multiple num den d h =
    let q = num / (10 * den) in
    let whole : num ≡ q * den * 10 = omega (arith, div-add-mod' num (10 * den)) in
    let tenth : num / 10 ≡ q * den = omega (arith, whole) in
    (omega (arith, whole), rw (tenth, mul-mod_left))

mul-ten-pow : (n power : ℕ) → n * 10 ^ (power + 1) ≡ n * 10 * 10 ^ power
mul-ten-pow n power = rw (add-one, pow-succ', ← mul_assoc)

whole_quotient :
    (num den : ℕ)
    → 0 < den
    → IsReducible num den
    → ltb (u16_max * den) num ≡ false
    → (num / den ≤ u16_max) × (num / den * den ≡ num)
whole_quotient num den d m low = (
  div-le_of_le-mul den (omega (arith, ltb-false→le _ _ low)),
  grind (arith, div-add-mod' num den, ltb-false→le _ _ low),
)

reduce_base_factor_exact :
    (fuel num den power b p : ℕ)
    → 0 < den
    → IsReducible num den
    → reduce_base_factor fuel num den power ≡ some (ok (b, p))
    → (b ≤ u16_max) × (b * den * 10 ^ p ≡ num * 10 ^ power)
unfolding reduce_base_factor
reduce_base_factor_exact zero num den power b p d m h = cc
reduce_base_factor_exact (suc fuel) num den power b p d m h =
    elim (Bool-cases (ltb (u16_max * den) num)) [
      | inr low ↦
          let e = rw low at h in
          let (fits, whole) = whole_quotient num den d m low in
          let same : (num / den ≡ b) × (power ≡ p) = ground arith in
          rw (← same.0, ← same.1) (fits, rw whole)
      | inl high ↦ elim (Bool-cases (num % (10 * den) == 0)) [
        | inr left ↦ let e = rw (high, left) at h in cc
        | inl whole ↦
            let e = rw (high, whole) at h in
            let t = tenth_of_multiple num den d (ground arith) in
            let r = reduce_base_factor_exact fuel (num / 10) den (power + 1) b p d (inl t.1) e in
            (r.0, r.1 ∙ rw (mul-ten-pow, t.0))
      ]
    ]

some_of_if :
    (t : Bool) (r s : Result (ℕ × ℕ))
    → (q : Result (ℕ × ℕ)) × ((if t then some r else some s) ≡ some q)
some_of_if true r s = (r, refl)
some_of_if false r s = (s, refl)

not_exact_throws : (floor b p : ℕ) → ¬ (some (check_base_factor floor false) ≡ some (ok (b, p)))
unfolding check_base_factor
not_exact_throws floor b p h = ground arith

-- For a pool with a positive bin step, a base factor and power that the code returns fit `u16` and
-- give the fee back exactly: factor * 10 ^ power * binStep is feeBps * 10000.
pub compute_base_factor_exact :
    (bin_step fee_bps b p : ℕ)
    → 0 < bin_step
    → compute_base_factor_from_fee_bps bin_step fee_bps ≡ some (ok (b, p))
    → (b ≤ u16_max) × (b * bin_step * 10 ^ p ≡ fee_bps * basis_point_max)
unfolding compute_base_factor_from_fee_bps
compute_base_factor_exact bin_step fee_bps b p d h =
    elim (Bool-cases (ltb (u16_max * bin_step) (fee_bps * basis_point_max))) [
      | inl high ↦
          let e = rw (pos_test bin_step d, high) at h in
          let r = reduce_base_factor_exact _ _ _ 0 b p d (inr (ltb→lt _ _ high)) e in
          (r.0, r.1 ∙ mul-one _)
      | inr low ↦
          let e = rw (pos_test bin_step d, low) at h in
          elim (Bool-cases (fee_bps * basis_point_max % bin_step == 0)) [
            | inr left ↦
                absurd (not_exact_throws (fee_bps * basis_point_max / bin_step) b p (rw left at e))
            | inl whole ↦
                let (fits, same) = whole_quotient _ bin_step d (inl (==→eq _ _ whole)) low in
                let f = rw whole at e in
                let parts : (fee_bps * basis_point_max / bin_step ≡ b) × (0 ≡ p) = ground arith in
                rw (← parts.0, ← parts.1) (fits, mul-one _ ∙ same)
          ]
    ]

-- The loop ends: with the code's fuel the call returns or throws, and never runs out.
pub compute_base_factor_total :
    (bin_step fee_bps : ℕ)
    → (r : Result (ℕ × ℕ)) × (compute_base_factor_from_fee_bps bin_step fee_bps ≡ some r)
unfolding compute_base_factor_from_fee_bps
compute_base_factor_total bin_step fee_bps =
    let num = fee_bps * basis_point_max in
    let (r, e) = reduce_base_factor_total (num + 1) num bin_step 0 (omega arith) in
    elim (Bool-cases (bin_step == 0)) [
      | inl zero_step ↦ rw zero_step (some_of_if (num == 0) _ _)
      | inr step ↦ rw step (elim (Bool-cases (ltb (u16_max * bin_step) num)) [
        | inl high ↦ rw high (r, e)
        | inr low ↦ rw low (check_base_factor (num / bin_step) (num % bin_step == 0), refl)
      ])
    ]
