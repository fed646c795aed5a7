-- ===== src/Examples/Deposits.antt =====
-- The liquidity strategies of a rebalance at concrete data.
use dlmm_sdk.Prelude.{ℕ, ◌^◌, ◌<◌, ◌≡◌, refl, arith, true, false, ltb, ltb→lt, some, ok}
use dlmm_sdk.Prelude.Int.{pos, negsuc, neg_ℤ, ◌+ℤ◌, ◌-ℤ◌, ◌*ℤ◌, ◌≤ℤ◌, tdiv}
use dlmm_sdk.Prelude.Numbers.{testn}
use dlmm_sdk.Math.{get_q_price_base_factor}
use dlmm_sdk.Math.Power.{get_q_price_from_id, pow, pow_steps, finish}
use dlmm_sdk.Rebalance.Amounts.{
  bid_loop, get_amount_in_bins_bid_side, ask_loop, get_amount_in_bins_ask_side,
}
use dlmm_sdk.Rebalance.Deposit.{div_ℤ}
use dlmm_sdk.Rebalance.Liquidity.{BidAskParameters, reduce_amounts}
use dlmm_sdk.Rebalance.Liquidity.Spot.{find_x0, find_base_x0, x0_loop, total_x, weight_loop}
use dlmm_sdk.Rebalance.Liquidity.Spot.Finds.{IsLargest, find_x0_finds}
use dlmm_sdk.Rebalance.Liquidity.Spot.Shares.{last_price}
use dlmm_sdk.Rebalance.Liquidity.Within.{BuildsWithin, build_liquidity_strategy_parameters-IsWithin}
use dlmm_sdk.Rebalance.Liquidity.Curve.{total_y, find_y0_and_delta_y, find_base_y0, y0_loop}
use dlmm_sdk.Rebalance.Liquidity.Curve.Ends.{find_y0_and_delta_y-EndsWithin}
use dlmm_sdk.Weights.Strategy.{spot}
use dlmm_sdk.Rebalance.Balanced.{
  BalancedStrategyBuilder, RebalanceDepositWithdrawParameters, max_delta_of, bin_per_ask,
  build_rebalance_strategy_parameters,
}
use dlmm_sdk.Rebalance.Balanced.Plan.{IsPlan, build_rebalance_strategy_parameters-IsPlan}

price_test : ltb 0 (last_price (pos 2) 25 (pos 0)) ≡ true
unfolding get_q_price_from_id pow pow_steps finish get_q_price_base_factor testn neg_ℤ ◌+ℤ◌
price_test = refl

some_price : 0 < last_price (pos 2) 25 (pos 0)
some_price = ltb→lt 0 _ price_test

-- 1000 units of X over three bins from the active one.
find_x0_run : find_x0 1000000 (pos 1000) (pos 0) (pos 2) 25 (pos 0) ≡ some (ok (pos 334))
unfolding find_x0 find_base_x0 x0_loop total_x weight_loop get_amount_in_bins_ask_side ask_loop
    reduce_amounts div_ℤ tdiv get_q_price_from_id pow pow_steps finish get_q_price_base_factor testn
    neg_ℤ ◌+ℤ◌ ◌-ℤ◌ ◌*ℤ◌
find_x0_run = refl

find_x0_finds_example :
    (r : ℕ) × (find_x0 (2 ^ 80) (pos 1000) (pos 0) (pos 2) 25 (pos 0) ≡ some (ok (pos r)))
    × IsLargest 1000 (pos 0) (pos 2) 25 (pos 0) r
find_x0_finds_example =
    find_x0_finds 1000 (pos 0) (pos 2) 25 (pos 0) (omega arith) (omega arith) some_price (2 ^ 80)
      (omega arith)

-- A deposit on both sides of the active bin.
build_liquidity_strategy_parameters-IsWithin_example :
    BuildsWithin 1000 500 (2 ^ 80) 25 (pos 0) (negsuc 1) (pos 2) false
build_liquidity_strategy_parameters-IsWithin_example =
    build_liquidity_strategy_parameters-IsWithin 1000 500 (2 ^ 80) 25 (pos 0) (negsuc 1) (pos 2)
      false (omega arith) some_price (omega arith)

-- 1000 units of Y over three bins up to the active one.
find_y_run :
    find_y0_and_delta_y 1001 (pos 1000) (negsuc 1) (pos 0) (pos 8)
    ≡ some (ok (record { base = pos 499; delta = negsuc 165 }))
unfolding find_y0_and_delta_y find_base_y0 y0_loop total_y get_amount_in_bins_bid_side bid_loop
    reduce_amounts div_ℤ tdiv neg_ℤ ◌+ℤ◌ ◌-ℤ◌ ◌*ℤ◌
find_y_run = refl

find_y0_and_delta_y-EndsWithin_example :
    (p : BidAskParameters) × (find_y0_and_delta_y 1001 (pos 1000) (negsuc 1) (pos 0) (pos 8)
      ≡ some (ok p))
    × (total_y (negsuc 1) (pos 0) (pos 8) p.delta p.base ≤ℤ pos 1000)
find_y0_and_delta_y-EndsWithin_example =
    find_y0_and_delta_y-EndsWithin 1000 1001 (negsuc 1) (pos 0) (pos 8) (omega arith) (omega arith)
      (omega arith)

-- A position of four bins, with a bin more above the active one.
abbrev four_bins : BalancedStrategyBuilder
four_bins = record {
  active_id = pos 0;
  bin_step = 25;
  lower_bin_id = pos 5;
  upper_bin_id = pos 8;
  total_x_amount = 900;
  total_y_amount = 400;
  fee_x = 10;
  fee_y = 20;
  top_up_amount_x = 90;
  top_up_amount_y = 80;
  x_withdraw_bps = pos 0;
  y_withdraw_bps = pos 5000;
  strategy = spot;
  favor_x_if_imbalance = true;
  favor_x_in_active_bin = false;
}

plan_price_test : ltb 0 (last_price (max_delta_of four_bins) 25 (pos 0)) ≡ true
unfolding bin_per_ask get_q_price_from_id pow pow_steps finish get_q_price_base_factor testn neg_ℤ
    ◌+ℤ◌ ◌-ℤ◌
plan_price_test = refl

build_rebalance_strategy_parameters-IsPlan_example :
    (p : RebalanceDepositWithdrawParameters) × (build_rebalance_strategy_parameters
        (2 ^ 80)
        four_bins
      ≡ some (ok p))
    × IsPlan four_bins 1000 500 p
build_rebalance_strategy_parameters-IsPlan_example =
    build_rebalance_strategy_parameters-IsPlan (2 ^ 80) four_bins refl (omega arith) (omega arith)
      (ltb→lt 0 _ plan_price_test)
