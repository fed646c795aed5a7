-- ===== src/Rebalance/Liquidity/Curve/Base.antt =====
-- curve.ts, `findBaseY0`: the base that the loop starts at.
use native.Mathlib.Nat.{mul-le-mul, le_refl, div-mul-le_self, div-le_self}
use dlmm_sdk.Prelude.{
  ℕ, zero, suc, ◌+◌, ◌-◌, ◌*◌, ◌/◌, ◌≤◌, ◌<◌, ◌≡◌, refl, inl, inr, arith, false, Bool-cases, ok,
  le→ltb-false, leb→le, leb-false→lt, leb,
}
use dlmm_sdk.Prelude.Int.{
  ℤ, pos, pos_part, neg_part, neg_ℤ, ◌+ℤ◌, ◌-ℤ◌, ◌*ℤ◌, ◌≤ℤ◌, ltb_ℤ, leb_ℤ, eqb_ℤ, int_laws,
  parts_exclusive, pos_mul, tdiv,
}
use dlmm_sdk.Rebalance.Liquidity.Curve.{find_base_y0}
use dlmm_sdk.Rebalance.Liquidity.Spot.Finds.{div_ℤ_pos}

-- The weights of the bins at the distances `l` to `l + m`, added up.
abbrev upper : ℕ → ℕ
upper k = k * (k + 1) / 2

abbrev lower : ℕ → ℕ
lower l = l * (l - 1) / 2

lower_square : (l : ℕ) → l * (l - 1) + l ≡ l * l
lower_square zero = omega arith
lower_square (suc l) = grind arith

expand_far : (l m : ℕ) → (l + m) * (l + m + 1) ≡ l * l + 2 * (l * m) + m * m + l + m
expand_far l m = grind arith

expand_width : (l m : ℕ) → (m + 1) * (l + m + 1) ≡ l * m + m * m + 2 * m + l + 1
expand_width l m = grind arith

sum_fits : (l m : ℕ) → upper (l + m) - lower l < (m + 1) * (l + m + 1)
sum_fits l m = omega (arith, expand_far l m, expand_width l m, lower_square l)

lower-le-upper : (l m : ℕ) → lower l ≤ upper (l + m)
lower-le-upper l m = omega (arith, expand_far l m, lower_square l)

-- What the code takes from the number of bins leaves at least one.
rest_fits : (l m : ℕ) → (upper (l + m) - lower l) / (l + m + 1) ≤ m
rest_fits l m =
    let r = (upper (l + m) - lower l) / (l + m + 1) in
    elim (Bool-cases (leb r m)) [
      | inl fits ↦ leb→le r m fits
      | inr more ↦
          let beyond : (m + 1) * (l + m + 1) ≤ r * (l + m + 1) =
            mul-le-mul (omega (arith, leb-false→lt r m more)) (le_refl (l + m + 1)) in
          absurd (
            omega
              (arith, beyond, sum_fits l m, div-mul-le_self (upper (l + m) - lower l) (l + m + 1)))
    ]

upper_int : (k : ℕ) → tdiv (pos k *ℤ (pos k +ℤ pos 1)) 2 ≡ pos (upper k)
unfolding tdiv
upper_int k =
    let e : pos k +ℤ pos 1 ≡ pos (k + 1) = omega int_laws in rw (e, pos_mul k (k + 1)) refl

lower_int_suc : (l : ℕ) → tdiv (pos (suc l) *ℤ (pos (suc l) -ℤ pos 1)) 2 ≡ pos (lower (suc l))
unfolding tdiv
lower_int_suc l =
    let e : pos (suc l) -ℤ pos 1 ≡ pos (suc l - 1) = omega int_laws in
    rw (e, pos_mul (suc l) (suc l - 1)) refl

lower_int : (l : ℕ) → tdiv (pos l *ℤ (pos l -ℤ pos 1)) 2 ≡ pos (lower l)
unfolding tdiv ◌*ℤ◌ ◌-ℤ◌
lower_int zero = refl
lower_int (suc l) = lower_int_suc l

-- For a bid side, and an amount that is not zero, the base lies between zero and the amount.
pub find_base_y0_lem :
    (b : ℕ) (lo hi : ℤ)
    → 0 < b
    → lo ≤ℤ hi
    → hi ≤ℤ pos 0
    → (x : ℕ) × (find_base_y0 (pos b) lo hi ≡ ok (pos x)) × (x ≤ b)
unfolding find_base_y0
find_base_y0_lem b lo hi some_amount ordered bid =
    let l = neg_part hi in
    let m = neg_part lo - neg_part hi in
    let no_low : pos_part lo ≡ 0 = elim (parts_exclusive lo) [
      | inl e ↦ e
      | inr e ↦ omega (arith, ordered, bid, e)
    ] in
    let no_high : pos_part hi ≡ 0 = elim (parts_exclusive hi) [
      | inl e ↦ e
      | inr e ↦ omega (arith, bid, e)
    ] in
    let range : ltb_ℤ hi lo ≡ false = le→ltb-false _ _ ordered in
    let amount : leb_ℤ (pos b) (pos 0) ≡ false = ground arith in
    elim (Bool-cases (eqb_ℤ lo hi)) [
      | inl same ↦ (b, rw (range, amount, same) refl, le_refl b)
      | inr apart ↦
          let m1 : neg_ℤ lo ≡ pos (l + m) = omega (int_laws, no_low, no_high, ordered) in
          let m2 : neg_ℤ hi ≡ pos l = omega (int_laws, no_high) in
          let r = (upper (l + m) - lower l) / (l + m + 1) in
          let next : pos (l + m) +ℤ pos 1 ≡ pos (l + m + 1) = omega int_laws in
          let more : pos (upper (l + m)) -ℤ pos (lower l) ≡ pos (upper (l + m) - lower l) =
            omega (int_laws, lower-le-upper l m) in
          let width : pos (l + m) -ℤ pos l +ℤ pos 1 -ℤ pos r ≡ pos (m + 1 - r) =
            omega (int_laws, rest_fits l m) in
          (
            b / (m + 1 - r),
            rw
                (
                  range,
                  amount,
                  apart,
                  m1,
                  m2,
                  upper_int (l + m),
                  lower_int l,
                  more,
                  next,
                  div_ℤ_pos (upper (l + m) - lower l) (l + m + 1) (omega arith),
                  width,
                )
                (div_ℤ_pos b (m + 1 - r) (omega (arith, rest_fits l m))),
            div-le_self b (m + 1 - r),
          )
    ]
