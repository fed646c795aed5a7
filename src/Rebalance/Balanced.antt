-- ===== src/Rebalance/Balanced.antt =====
-- ts-client/src/dlmm/helpers/rebalance/strategy: the rebalance of a position around the active bin, by
-- `buildRebalanceStrategyParameters` of the balanced strategy. Amounts of a position are never
-- negative, and its lower bin id is at most its upper one.
pub mod Plan
use dlmm_sdk.Prelude.{
  ℕ, ◌+◌, ◌/◌, ◌%◌, ◌==◌, Bool, true, if◌then◌else◌, some, Result, ok, Fueled, List, [], ◌∷◌,
}
use dlmm_sdk.Prelude.Int.{ℤ, pos, neg_ℤ, ◌+ℤ◌, ◌-ℤ◌, ◌*ℤ◌, tdiv, ltb_ℤ}
use dlmm_sdk.Constants.{basis_point_max}
use dlmm_sdk.Positions.{ids_from_to}
use dlmm_sdk.Weights.Strategy.{StrategyType, spot, curve, bid_ask}
use dlmm_sdk.Rebalance.{RebalanceWithDeposit, RebalanceWithWithdraw}
use dlmm_sdk.Rebalance.Liquidity.{
  LiquidityStrategyParameters, LiquidityStrategyParameterBuilder,
  build_liquidity_strategy_parameters, after,
}
use dlmm_sdk.Rebalance.Liquidity.Spot.{spot_builder}
use dlmm_sdk.Rebalance.Liquidity.Curve.{curve_builder}
use dlmm_sdk.Rebalance.Liquidity.BidAsk.{bid_ask_builder}

-- The builder of each strategy, whose loops take fuel.
unfoldable pub get_liquidity_strategy_parameter_builder :
    ℕ → StrategyType → LiquidityStrategyParameterBuilder
get_liquidity_strategy_parameter_builder fuel spot = spot_builder fuel
get_liquidity_strategy_parameter_builder fuel curve = curve_builder fuel
get_liquidity_strategy_parameter_builder fuel bid_ask = bid_ask_builder fuel

abbrev pub max_bps : ℤ
max_bps = pos basis_point_max

unfoldable pub cap_bps : ℤ → ℤ
cap_bps bps = if ltb_ℤ bps (pos 0) then pos 0 else if ltb_ℤ max_bps bps then max_bps else bps

pub record RebalanceDepositWithdrawParameters : Type 0 where
  pub should_claim_fee : Bool
  pub should_claim_reward : Bool
  pub deposits : List RebalanceWithDeposit
  pub withdraws : List RebalanceWithWithdraw

-- The fields of the class, with those of its position that are read.
pub record BalancedStrategyBuilder : Type 0 where
  pub active_id : ℤ
  pub bin_step : ℕ
  pub lower_bin_id : ℤ
  pub upper_bin_id : ℤ
  pub total_x_amount : ℕ
  pub total_y_amount : ℕ
  pub fee_x : ℕ
  pub fee_y : ℕ
  pub top_up_amount_x : ℕ
  pub top_up_amount_y : ℕ
  pub x_withdraw_bps : ℤ
  pub y_withdraw_bps : ℤ
  pub strategy : StrategyType
  pub favor_x_if_imbalance : Bool
  pub favor_x_in_active_bin : Bool

-- What is deposited of one token: the top-up, and the part of what is withdrawn that stays.
unfoldable pub deposit_amount : (top_up total fee : ℕ) → (withdraw_bps : ℤ) → ℤ
unfolding cap_bps
deposit_amount top_up total fee withdraw_bps =
    pos top_up +ℤ tdiv (pos (total + fee) *ℤ (max_bps -ℤ cap_bps withdraw_bps)) basis_point_max

-- The bins below and above the active one. A width of two at least has a bin to take from a side.
unfoldable pub bin_per_bid : ℕ → Bool → ℤ
bin_per_bid width favor_x =
    if width % 2 == 0
    then (if favor_x then pos (width / 2) -ℤ pos 1 else pos (width / 2) +ℤ pos 1)
    else pos (width / 2)

unfoldable pub bin_per_ask : ℕ → Bool → ℤ
bin_per_ask width favor_x =
    if width % 2 == 0
    then (if favor_x then pos (width / 2) +ℤ pos 1 else pos (width / 2) -ℤ pos 1)
    else pos (width / 2)

abbrev pub width_of : BalancedStrategyBuilder → ℕ
width_of s = ids_from_to s.lower_bin_id s.upper_bin_id

abbrev pub min_delta_of : BalancedStrategyBuilder → ℤ
min_delta_of s = neg_ℤ (bin_per_bid (width_of s) s.favor_x_if_imbalance)

abbrev pub max_delta_of : BalancedStrategyBuilder → ℤ
max_delta_of s = bin_per_ask (width_of s) s.favor_x_if_imbalance

-- The deposit over the deltas, and the withdrawal of the whole position.
unfoldable pub parameters_of :
    BalancedStrategyBuilder → LiquidityStrategyParameters → RebalanceDepositWithdrawParameters
parameters_of s p = record {
  should_claim_fee = true;
  should_claim_reward = true;
  deposits =
      record {
        min_delta_id = min_delta_of s;
        max_delta_id = max_delta_of s;
        x0 = p.x0;
        y0 = p.y0;
        delta_x = p.delta_x;
        delta_y = p.delta_y;
        favor_x_in_active_bin = s.favor_x_in_active_bin;
      }
      ∷ [];
  withdraws =
      record { min_bin_id = some s.lower_bin_id; max_bin_id = some s.upper_bin_id; bps = max_bps }
      ∷ [];
}

unfoldable pub build_rebalance_strategy_parameters :
    ℕ → BalancedStrategyBuilder → Fueled RebalanceDepositWithdrawParameters
build_rebalance_strategy_parameters fuel s =
    let deposit_amount_x =
      deposit_amount s.top_up_amount_x s.total_x_amount s.fee_x s.x_withdraw_bps in
    let deposit_amount_y =
      deposit_amount s.top_up_amount_y s.total_y_amount s.fee_y s.y_withdraw_bps in
    after
      (build_liquidity_strategy_parameters deposit_amount_x deposit_amount_y (min_delta_of s)
        (max_delta_of s) s.bin_step s.favor_x_in_active_bin s.active_id
        (get_liquidity_strategy_parameter_builder fuel s.strategy))
      (λ p. some (ok (parameters_of s p)))
