-- ===== src/Weights/Amounts/Laws.antt =====
-- What the functions of weightToAmounts.ts rely on of the decimal numbers, and the sums of weights that
-- follow it: a sum is positive, and at least each of its parts.
use mathlib.Core.Path.{subst}
use dlmm_sdk.Prelude.{ℕ, suc, ◌^◌, ◌<◌, ◌≡◌, refl, sym, Bool, true, false, List, [], ◌∷◌, All, some}
use dlmm_sdk.Prelude.Int.{ℤ, pos}
use dlmm_sdk.Weights.{BinWeight}
use dlmm_sdk.Weights.Decimals.{Decimals, sum_where}

-- One number is at most another.
abbrev pub IsAtMost : (d : Decimals) → d.Decimal → d.Decimal → Type 0
IsAtMost d a b = d.less_than b a ≡ false

-- A number of at most the digits that a result is rounded to, so that adding it to zero gives it back.
abbrev pub IsShort : (d : Decimals) → d.Decimal → Type 0
IsShort d a = d.add (d.from_int (pos 0)) a ≡ a

-- The laws of decimal numbers that stay in the range of exponents, as amounts, weights and prices do. A
-- positive integer is positive, and so is a sum of positive numbers. Small integers are short, and so are
-- the rounded results of sums and quotients. Positive numbers are ordered, and a sum of short ones is at
-- least each of them. BN reads the part of an amount below 10^20 that a weight has of a total that is at
-- least the weight, since its text has no exponent.
pub record DecimalLaws (d : Decimals) : Type 0 where
  pub from_int_pos : (n : ℕ) → d.is_positive (d.from_int (pos (suc n))) ≡ true
  pub from_int_short : (n : ℕ) → n < 10 ^ 20 → IsShort d (d.from_int (pos n))
  pub add_short :
      (a b : d.Decimal) → d.is_positive a ≡ true → d.is_positive b ≡ true → IsShort d (d.add a b)
  pub div_short : (a b : d.Decimal) → d.is_positive (d.div a b) ≡ true → IsShort d (d.div a b)
  pub add_pos :
      (a b : d.Decimal)
      → d.is_positive a ≡ true
      → d.is_positive b ≡ true
      → d.is_positive (d.add a b) ≡ true
  pub le_refl : (a : d.Decimal) → d.is_positive a ≡ true → IsAtMost d a a
  pub le_trans :
      (a b c : d.Decimal)
      → d.is_positive a ≡ true
      → d.is_positive b ≡ true
      → d.is_positive c ≡ true
      → IsAtMost d a b
      → IsAtMost d b c
      → IsAtMost d a c
  pub add_le :
      (a b : d.Decimal)
      → d.is_positive a ≡ true
      → d.is_positive b ≡ true
      → IsShort d a
      → IsShort d b
      → IsAtMost d a (d.add a b) × IsAtMost d b (d.add a b)
  pub reads_share :
      (n : ℕ) (w t : d.Decimal)
      → n < 10 ^ 20
      → d.is_positive w ≡ true
      → d.is_positive t ≡ true
      → IsAtMost d w t
      → (z : ℤ) × (d.to_bn (d.mul (d.from_int (pos n)) (d.div w t)) ≡ some z)
  pub reads_quotient :
      (n : ℕ) (w t : d.Decimal)
      → n < 10 ^ 20
      → d.is_positive w ≡ true
      → d.is_positive t ≡ true
      → IsAtMost d w t
      → (z : ℤ) × (d.to_bn (d.div (d.mul (d.from_int (pos n)) w) t) ≡ some z)

module _ (d : Decimals) (laws : DecimalLaws d) (test : BinWeight → Bool)
    (value : BinWeight → d.Decimal) where
  -- A bin that counts, with a positive number that is short.
  abbrev pub Counts : BinWeight → Type 0
  Counts b = (test b ≡ true) × (d.is_positive (value b) ≡ true) × IsShort d (value b)

  -- The number of a bin is positive and at most a total.
  abbrev pub IsPartOf : d.Decimal → BinWeight → Type 0
  IsPartOf t b = (d.is_positive (value b) ≡ true) × IsAtMost d (value b) t

  -- A positive total that is at least what it began with, and of which each number is a part.
  abbrev IsTotal : (total sum : d.Decimal) → List BinWeight → Type 0
  IsTotal total sum bins =
      (d.is_positive total ≡ true) × IsAtMost d sum total × All (IsPartOf total) bins

  sum_where_from :
      (sum : d.Decimal) (bins : List BinWeight)
      → d.is_positive sum ≡ true
      → IsShort d sum
      → All Counts bins
      → IsTotal (sum_where d test value sum bins) sum bins
  unfolding sum_where
  sum_where_from sum [] h short cs = (h, laws.le_refl sum h, tt)
  sum_where_from sum (b ∷ bins) h short ((t, p, s), cs) =
      let next = d.add sum (value b) in
      let more = laws.add_pos sum (value b) h p in
      let (positive, least, parts) =
        sum_where_from next bins more (laws.add_short sum (value b) h p) cs in
      let (left, right) = laws.add_le sum (value b) h p short s in
      let total : sum_where d test value sum (b ∷ bins) ≡ sum_where d test value next bins =
        rw t refl in
      subst (λ r. IsTotal r sum (b ∷ bins)) (sym total)
        (
          positive,
          laws.le_trans sum next _ h more positive left least,
          ((p, laws.le_trans (value b) next _ p more positive right least), parts),
        )

  -- The total from zero is positive, and each number is a part of it.
  pub sum_where_from_zero :
      (b : BinWeight) (bins : List BinWeight)
      → All Counts (b ∷ bins)
      → (d.is_positive (sum_where d test value (d.from_int (pos 0)) (b ∷ bins)) ≡ true)
        × All (IsPartOf (sum_where d test value (d.from_int (pos 0)) (b ∷ bins))) (b ∷ bins)
  unfolding sum_where
  sum_where_from_zero b bins ((t, p, s), cs) =
      let (positive, least, parts) = sum_where_from (value b) bins p s cs in
      let total : sum_where d test value (d.from_int (pos 0)) (b ∷ bins)
          ≡ sum_where d test value (value b) bins =
        rw (t, s) refl in
      subst (λ r. (d.is_positive r ≡ true) × All (IsPartOf r) (b ∷ bins)) (sym total)
        (positive, ((p, least), parts))
