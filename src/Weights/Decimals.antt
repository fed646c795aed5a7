-- ===== src/Weights/Decimals.antt =====
-- The decimal numbers of the package that the code uses, as a parameter; the price of a bin
-- (`getPriceOfBinByBinId` of ts-client/src/dlmm/helpers/weight.ts) and the weight of a bin at its price,
-- which the functions of helpers/weightToAmounts.ts compute.
use dlmm_sdk.Prelude.{
  ℕ, Bool, if◌then◌else◌, List, [], ◌∷◌, Option, Result, from_option, assertion_failed,
}
use dlmm_sdk.Prelude.Int.{ℤ, pos}
use dlmm_sdk.Constants.{basis_point_max}
use dlmm_sdk.Weights.{BinWeight}

-- The decimal numbers: `from_int` reads an integer, and `to_bn` is the integer that BN reads from the
-- text of a number rounded down, if it reads it: it does not for NaN, and for a number whose text has
-- an exponent.
pub record Decimals : Type 1 where
  pub Decimal : Type 0
  pub from_int : ℤ → Decimal
  pub add : Decimal → Decimal → Decimal
  pub mul : Decimal → Decimal → Decimal
  pub div : Decimal → Decimal → Decimal
  pub pow : Decimal → Decimal → Decimal
  pub is_positive : Decimal → Bool
  pub less_than : Decimal → Decimal → Bool
  pub to_bn : Decimal → Option ℤ

module _ (d : Decimals) where
  open d use {Decimal, from_int, add, div, pow, to_bn}

  -- `new BN` of the text of a number rounded down.
  unfoldable pub read_bn : Decimal → Result ℤ
  read_bn a = from_option assertion_failed (to_bn a)

  unfoldable pub get_price_of_bin_by_bin_id : ℤ → ℕ → Decimal
  get_price_of_bin_by_bin_id bin_id bin_step =
      pow (add (from_int (pos 1)) (div (from_int (pos bin_step)) (from_int (pos basis_point_max))))
        (from_int bin_id)

  unfoldable pub weight_per_price : ℕ → BinWeight → Decimal
  weight_per_price bin_step b =
      div (from_int b.weight) (get_price_of_bin_by_bin_id b.bin_id bin_step)

  -- The loops that add up the numbers of the bins that pass a test.
  unfoldable pub sum_where :
      (BinWeight → Bool) → (BinWeight → Decimal) → Decimal → List BinWeight → Decimal
  sum_where test value sum [] = sum
  sum_where test value sum (b ∷ bins) =
      sum_where test value (if test b then add sum (value b) else sum) bins
