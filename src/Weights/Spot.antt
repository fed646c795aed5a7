-- ===== src/Weights/Spot.antt =====
-- ts-client/src/dlmm/helpers/weight.ts, `calculateSpotDistribution`: the shares of X and Y that every
-- bin gets, in basis points of the totals. A share is an integer, since the code subtracts.
pub mod Shares
use dlmm_sdk.Prelude.{
  ℕ, ◌+◌, ◌*◌, ◌/◌, ◌||◌, Bool, true, false, if◌then◌else◌, List, [], ◌∷◌, map, length, Result, err,
  ok, assertion_failed,
}
use dlmm_sdk.Prelude.Int.{ℤ, pos, pos_part, neg_part, ◌-ℤ◌, ltb_ℤ, eqb_ℤ}

pub record BinShare : Type 0 where
  pub bin_id : ℤ
  pub x_amount_bps_of_total : ℤ
  pub y_amount_bps_of_total : ℤ

-- `includes` of an array.
unfoldable pub includes : List ℤ → ℤ → Bool
includes [] a = false
includes (i ∷ ids) a = eqb_ℤ i a || includes ids a

-- The length of a filtered array.
unfoldable pub count_of : (ℤ → Bool) → List ℤ → ℕ
count_of test [] = 0
count_of test (i ∷ ids) = (if test i then 1 else 0) + count_of test ids

-- The share of a bin on one side, `10_000 / (count + 0.5)`: BN drops the fraction.
abbrev pub side_bps : ℕ → ℕ
side_bps count = 20000 / (2 * count + 1)

-- The distribution where the active bin is not among the bins. The code adds the remainder to a copy
-- that it drops, so that no share changes.
unfoldable pub one_sided_share : Bool → ℕ → ℤ → BinShare
one_sided_share on_y dist i = record {
  bin_id = i;
  x_amount_bps_of_total = if on_y then pos 0 else pos dist;
  y_amount_bps_of_total = if on_y then pos dist else pos 0;
}

-- The share of a bin around the active bin.
unfoldable pub two_sided_share : ℤ → (y_count x_count : ℕ) → ℤ → BinShare
two_sided_share active_bin y_count x_count i =
    if ltb_ℤ i active_bin
    then record {
      bin_id = i;
      x_amount_bps_of_total = pos 0;
      y_amount_bps_of_total = pos (side_bps y_count);
    }
    else if ltb_ℤ active_bin i
    then record {
      bin_id = i;
      x_amount_bps_of_total = pos (side_bps x_count);
      y_amount_bps_of_total = pos 0;
    }
    else record {
      bin_id = i;
      x_amount_bps_of_total = pos 10000 -ℤ pos (side_bps x_count * x_count);
      y_amount_bps_of_total = pos 10000 -ℤ pos (side_bps y_count * y_count);
    }

-- Without bins the division by their number fails.
unfoldable pub calculate_spot_distribution : ℤ → List ℤ → Result (List BinShare)
calculate_spot_distribution active_bin [] = err assertion_failed
calculate_spot_distribution active_bin (first ∷ ids) =
    let bin_ids = first ∷ ids in
    let y_count = count_of (λ i. ltb_ℤ i active_bin) bin_ids in
    let x_count = count_of (λ i. ltb_ℤ active_bin i) bin_ids in
    if includes bin_ids active_bin
    then ok (map (two_sided_share active_bin y_count x_count) bin_ids)
    else ok (map (one_sided_share (ltb_ℤ first active_bin) (10000 / length bin_ids)) bin_ids)
