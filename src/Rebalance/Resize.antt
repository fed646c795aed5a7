-- ===== src/Rebalance/Resize.antt =====
-- rebalancePosition.ts, `_simulateResize`: the range of a position is moved to cover the bins of a
-- deposit and those that still hold something.
pub mod Range
pub mod Covers
use dlmm_sdk.Prelude.{
  ℕ, zero, suc, Bool, true, false, ◌&&◌, if◌then◌else◌, Option, none, some, List, [], ◌∷◌, ◌++◌,
}
use dlmm_sdk.Prelude.Int.{ℤ, pos, pos_part, ◌+ℤ◌, ◌-ℤ◌, ltb_ℤ, leb_ℤ, min_ℤ, is_zero_ℤ}
use dlmm_sdk.Rebalance.{RebalancePositionBinData, RebalancePosition}

unfoldable pub is_bin_empty : RebalancePositionBinData → Bool
is_bin_empty b =
    is_zero_ℤ b.amount_x
    && is_zero_ℤ b.amount_y
    && is_zero_ℤ b.claimable_fee_x_amount
    && is_zero_ℤ b.claimable_fee_y_amount
    && (is_zero_ℤ b.claimable_reward_amount.0 && is_zero_ℤ b.claimable_reward_amount.1)

abbrev pub lower_of : Option ℤ → ℤ → Option ℤ
lower_of none b = some b
lower_of (some a) b = if ltb_ℤ b a then some b else some a

abbrev pub upper_of : Option ℤ → ℤ → Option ℤ
upper_of none b = some b
upper_of (some a) b = if ltb_ℤ a b then some b else some a

-- The loop with its two variables.
unfoldable pub min_max_loop :
    Option ℤ × Option ℤ → List RebalancePositionBinData → Option ℤ × Option ℤ
min_max_loop found [] = found
min_max_loop found (b ∷ bins) =
    min_max_loop
      (if is_bin_empty b then found else (lower_of found.0 b.bin_id, upper_of found.1 b.bin_id))
      bins

unfoldable pub find_min_max_bin_id_with_liquidity :
    List RebalancePositionBinData → Option ℤ × Option ℤ
find_min_max_bin_id_with_liquidity bins = min_max_loop (none, none) bins

-- Without a bin that holds something, the other bound is the largest or smallest number, beyond every
-- bin id.
abbrev pub min_with : ℤ → Option ℤ → ℤ
min_with a none = a
min_with a (some b) = min_ℤ a b

unfoldable pub max_ℤ : ℤ → ℤ → ℤ
max_ℤ a b = if leb_ℤ a b then b else a

abbrev pub max_with : ℤ → Option ℤ → ℤ
max_with a none = a
max_with a (some b) = max_ℤ a b

abbrev pub empty_bin : ℤ → RebalancePositionBinData
empty_bin bin_id = record {
  bin_id = bin_id;
  amount_x = pos 0;
  amount_y = pos 0;
  claimable_reward_amount = (pos 0, pos 0);
  claimable_fee_x_amount = pos 0;
  claimable_fee_y_amount = pos 0;
}

-- `unshift` and `push` of empty bins, from a bin id down or up, by the rounds left.
unfoldable pub unshift_bins : ℕ → ℤ → List RebalancePositionBinData → List RebalancePositionBinData
unshift_bins zero bin_id bins = bins
unshift_bins (suc rounds) bin_id bins =
    unshift_bins rounds (bin_id -ℤ pos 1) (empty_bin bin_id ∷ bins)

unfoldable pub push_bins : ℕ → ℤ → List RebalancePositionBinData → List RebalancePositionBinData
push_bins zero bin_id bins = bins
push_bins (suc rounds) bin_id bins =
    push_bins rounds (bin_id +ℤ pos 1) (bins ++ empty_bin bin_id ∷ [])

-- `shift` and `pop`, which leave an empty array as it is.
unfoldable pub shift_bins : ℕ → List RebalancePositionBinData → List RebalancePositionBinData
shift_bins zero bins = bins
shift_bins (suc rounds) [] = []
shift_bins (suc rounds) (b ∷ bins) = shift_bins rounds bins

abbrev pub all_but_last : List RebalancePositionBinData → List RebalancePositionBinData
all_but_last [] = []
all_but_last (b ∷ []) = []
all_but_last (b ∷ c ∷ bins) = b ∷ all_but_last (c ∷ bins)

unfoldable pub pop_bins : ℕ → List RebalancePositionBinData → List RebalancePositionBinData
pop_bins zero bins = bins
pop_bins (suc rounds) bins = pop_bins rounds (all_but_last bins)

-- The lower end; the number of bins to expand by is counted from the deposit's first bin.
unfoldable pub resize_lower :
    (lower deposit_min new_min : ℤ) → List RebalancePositionBinData → List RebalancePositionBinData
resize_lower lower deposit_min new_min bins =
    if ltb_ℤ new_min lower
    then unshift_bins (pos_part (lower -ℤ deposit_min)) (lower -ℤ pos 1) bins
    else shift_bins (pos_part (new_min -ℤ lower)) bins

unfoldable pub resize_upper :
    (upper new_max : ℤ) → List RebalancePositionBinData → List RebalancePositionBinData
resize_upper upper new_max bins =
    if ltb_ℤ upper new_max
    then push_bins (pos_part (new_max -ℤ upper)) (upper +ℤ pos 1) bins
    else pop_bins (pos_part (upper -ℤ new_max)) bins

unfoldable pub simulate_resize :
    RebalancePosition → (deposit_min deposit_max : ℤ) → RebalancePosition
simulate_resize p deposit_min deposit_max =
    let bins = p.rebalance_position_bin_data in
    let found = find_min_max_bin_id_with_liquidity bins in
    let new_min = min_with deposit_min found.0 in
    let new_max = max_with deposit_max found.1 in
    record p {
      lower_bin_id = new_min;
      upper_bin_id = new_max;
      rebalance_position_bin_data =
          resize_upper p.upper_bin_id new_max
            (resize_lower p.lower_bin_id deposit_min new_min bins);
    }
