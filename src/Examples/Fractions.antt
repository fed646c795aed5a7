-- ===== src/Examples/Fractions.antt =====
-- Fractions of natural numbers as the decimal numbers of the code: their laws.
use native.Mathlib.Nat.{mul-pos, mul-le-mul, le_refl, le_of_mul-le-mul_right}
use dlmm_sdk.Prelude.{
  ℕ, suc, ◌+◌, ◌*◌, ◌/◌, ◌^◌, ◌==◌, ◌≡◌, ◌<◌, ◌≤◌, refl, arith, true, false, ◌&&◌, ltb,
  ltb-false→le, if◌then◌else◌, none, some,
}
use dlmm_sdk.Prelude.Int.{ℤ, pos, pos_part}
use dlmm_sdk.Weights.Decimals.{Decimals}
use dlmm_sdk.Weights.Amounts.Laws.{DecimalLaws}

-- Fractions of natural numbers, which have all the numbers of the deposit below: numerator and
-- denominator, with whole exponents.
abbrev pub fractions : Decimals
fractions = record {
  Decimal = ℕ × ℕ;
  from_int = λ z. (pos_part z, 1);
  add = λ a b. (a.0 * b.1 + b.0 * a.1, a.1 * b.1);
  mul = λ a b. (a.0 * b.0, a.1 * b.1);
  div = λ a b. (a.0 * b.1, a.1 * b.0);
  pow = λ a n. (a.0 ^ n.0, a.1 ^ n.0);
  is_positive = λ a. ltb 0 a.0 && ltb 0 a.1;
  less_than = λ a b. ltb (a.0 * b.1) (b.0 * a.1);
  to_bn = λ a. if a.1 == 0 then none else some (pos (a.0 / a.1));
}

pub both_positive : (m n : ℕ) → 0 < m → 0 < n → (ltb 0 m && ltb 0 n) ≡ true
both_positive m n h k = ground arith

parts_positive : (m n : ℕ) → (ltb 0 m && ltb 0 n) ≡ true → (0 < m) × (0 < n)
parts_positive m n h = ground arith

sum_positive :
    (a b c d : ℕ)
    → (ltb 0 a && ltb 0 b) ≡ true
    → (ltb 0 c && ltb 0 d) ≡ true
    → (ltb 0 (a * d + c * b) && ltb 0 (b * d)) ≡ true
sum_positive a b c d h k =
    let (ha, hb) = parts_positive a b h in
    let (hc, hd) = parts_positive c d k in
    both_positive (a * d + c * b) (b * d) (omega (arith, mul-pos ha hd)) (mul-pos hb hd)

from_zero : (a : ℕ × ℕ) → (0 * a.1 + a.0 * 1, 1 * a.1) ≡ a
from_zero a =
    let left : 0 * a.1 + a.0 * 1 ≡ a.0 = omega arith in
    let right : 1 * a.1 ≡ a.1 = omega arith in rw (left, right) refl

-- The order of fractions with positive parts.
at_most : (a b : ℕ) → a ≤ b → ltb b a ≡ false
at_most a b h = ground arith

trans_at_most :
    (a b c d e f : ℕ)
    → 0 < d
    → ltb (c * b) (a * d) ≡ false
    → ltb (e * d) (c * f) ≡ false
    → ltb (e * b) (a * f) ≡ false
trans_at_most a b c d e f some_d h k =
    let first : a * d ≤ c * b = ltb-false→le _ _ h in
    let second : c * f ≤ e * d = ltb-false→le _ _ k in
    at_most (a * f) (e * b) (
      le_of_mul-le-mul_right
        (omega (arith, mul-le-mul first (le_refl f), mul-le-mul second (le_refl b))) some_d)

sum_at_most : (a b c d : ℕ) → ltb ((a * d + c * b) * b) (a * (b * d)) ≡ false
sum_at_most a b c d = at_most _ _ (omega arith)

sum_at_most_right : (a b c d : ℕ) → ltb ((a * d + c * b) * d) (c * (b * d)) ≡ false
sum_at_most_right a b c d = at_most _ _ (omega arith)

reads : (m n : ℕ) → 0 < n → (z : ℤ) × ((if n == 0 then none else some (pos (m / n))) ≡ some z)
reads m n h = let e : n == 0 ≡ false = ground arith in (pos (m / n), rw e refl)

pub fractions_laws : DecimalLaws fractions
fractions_laws = record {
  from_int_pos = λ n. both_positive (suc n) 1 (omega arith) (omega arith);
  from_int_short = λ n small. from_zero _;
  add_short = λ a b h k. from_zero _;
  div_short = λ a b h. from_zero _;
  add_pos = λ a b h k. sum_positive a.0 a.1 b.0 b.1 h k;
  le_refl = λ a h. at_most _ _ (omega arith);
  le_trans =
      λ a b c ha hb hc h k. trans_at_most a.0 a.1 b.0 b.1 c.0 c.1 (parts_positive b.0 b.1 hb).1 h k;
  add_le = λ a b h k short short'. (sum_at_most a.0 a.1 b.0 b.1, sum_at_most_right a.0 a.1 b.0 b.1);
  reads_share = λ n w t small hw ht h.
      reads _ _
        (omega (arith, mul-pos (parts_positive w.0 w.1 hw).1 (parts_positive t.0 t.1 ht).0));
  reads_quotient = λ n w t small hw ht h.
      reads _ _
        (omega (arith, mul-pos (parts_positive w.0 w.1 hw).1 (parts_positive t.0 t.1 ht).0));
}
