-- ===== src/Weights/Strategy.antt =====
-- ts-client/src/dlmm/helpers/strategy.ts, `toAmountsBothSideByStrategy`: the amounts of the bins of a
-- range by the strategy of the deposit.
pub mod Positive
pub mod Covers
pub mod Parts
pub mod Placed
use dlmm_sdk.Prelude.{
  ℕ, ◌==◌, Bool, true, false, ◌||◌, if◌then◌else◌, List, [], ◌++◌, map, Option, Result, err, ok,
  ◌>>=◌,
}
use dlmm_sdk.Prelude.Int.{ℤ, pos, ◌+ℤ◌, ◌-ℤ◌, ltb_ℤ, leb_ℤ}
use dlmm_sdk.Token.{TransferFee}
use dlmm_sdk.Weights.{
  BinWeight, to_weight_spot_balanced, to_weight_ascending_order, to_weight_descending_order,
}
use dlmm_sdk.Weights.Decimals.{Decimals}
use dlmm_sdk.Weights.Amounts.{
  BinAmounts, with_x, with_y, map_ok, to_amount_bid_side, to_amount_ask_side, to_amount_both_side,
}

pub data StrategyType : Type 0 where
  spot : StrategyType
  curve : StrategyType
  bid_ask : StrategyType

-- The parameters of a deposit. A mint is given by its transfer fee at the epoch of the clock.
pub record Deposit : Type 0 where
  pub active_id : ℤ
  pub bin_step : ℕ
  pub min_bin_id : ℤ
  pub max_bin_id : ℤ
  pub amount_x : ℕ
  pub amount_y : ℕ
  pub amount_x_in_active_bin : ℕ
  pub amount_y_in_active_bin : ℕ
  pub mint_x : Option TransferFee
  pub mint_y : Option TransferFee

-- The amounts of the bid side, then those of the ask side.
unfoldable pub both_parts :
    Result (List BinAmounts) → Result (List BinAmounts) → Result (List BinAmounts)
both_parts below above = do bid ← below; ask ← above; ok (bid ++ ask)

module _ (d : Decimals) (calculate_fee : TransferFee → ℕ → ℕ) (p : Deposit) where
  -- The two loops that push the amounts of one side.
  unfoldable pub bid_part : List BinWeight → Result (List BinAmounts)
  bid_part weights =
      map_ok (map with_y)
        (to_amount_bid_side d calculate_fee p.active_id p.amount_y weights p.mint_y)

  unfoldable pub ask_part : List BinWeight → Result (List BinAmounts)
  ask_part weights =
      map_ok (map with_x)
        (to_amount_ask_side d calculate_fee p.active_id p.bin_step p.amount_x weights p.mint_x)

  -- The part of each case behind the tests of the sides, by the weights of the bid side and of the
  -- ask side. The active bin goes to the ask side where there is no Y.
  unfoldable pub amounts_in_range : (bid ask : ℤ → ℤ → List BinWeight) → Result (List BinAmounts)
  unfolding both_parts
  amounts_in_range bid ask =
      if p.amount_y == 0
      then (both_parts
          (if ltb_ℤ p.min_bin_id p.active_id
            then bid_part (bid p.min_bin_id (p.active_id -ℤ pos 1))
            else ok [])
          (if leb_ℤ p.active_id p.max_bin_id
            then ask_part (ask p.active_id p.max_bin_id)
            else ok []))
      else (both_parts
          (if leb_ℤ p.min_bin_id p.active_id
            then bid_part (bid p.min_bin_id p.active_id)
            else ok [])
          (if ltb_ℤ p.active_id p.max_bin_id
            then ask_part (ask (p.active_id +ℤ pos 1) p.max_bin_id)
            else ok []))

  unfoldable pub amounts_both_side : List BinWeight → Result (List BinAmounts)
  amounts_both_side weights =
      to_amount_both_side d calculate_fee p.active_id p.bin_step p.amount_x p.amount_y
        p.amount_x_in_active_bin p.amount_y_in_active_bin weights p.mint_x p.mint_y

  unfoldable pub spot_amounts : Result (List BinAmounts)
  spot_amounts =
      if ltb_ℤ p.active_id p.min_bin_id || ltb_ℤ p.max_bin_id p.active_id
      then amounts_both_side (to_weight_spot_balanced p.min_bin_id p.max_bin_id)
      else amounts_in_range to_weight_spot_balanced to_weight_spot_balanced

  unfoldable pub curve_amounts : Result (List BinAmounts)
  curve_amounts =
      if ltb_ℤ p.active_id p.min_bin_id
      then amounts_both_side (to_weight_descending_order p.min_bin_id p.max_bin_id)
      else if ltb_ℤ p.max_bin_id p.active_id
      then amounts_both_side (to_weight_ascending_order p.min_bin_id p.max_bin_id)
      else amounts_in_range to_weight_ascending_order to_weight_descending_order

  unfoldable pub bid_ask_amounts : Result (List BinAmounts)
  bid_ask_amounts =
      if ltb_ℤ p.active_id p.min_bin_id
      then amounts_both_side (to_weight_ascending_order p.min_bin_id p.max_bin_id)
      else if ltb_ℤ p.max_bin_id p.active_id
      then amounts_both_side (to_weight_descending_order p.min_bin_id p.max_bin_id)
      else amounts_in_range to_weight_descending_order to_weight_ascending_order

  unfoldable pub to_amounts_both_side_by_strategy : StrategyType → Result (List BinAmounts)
  unfolding spot_amounts curve_amounts bid_ask_amounts
  to_amounts_both_side_by_strategy spot = spot_amounts
  to_amounts_both_side_by_strategy curve = curve_amounts
  to_amounts_both_side_by_strategy bid_ask = bid_ask_amounts
