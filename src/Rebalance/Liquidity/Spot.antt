-- ===== src/Rebalance/Liquidity/Spot.antt =====
-- rebalance/liquidity_strategy/spot.ts: the same base for every bin of a side.
pub mod Shares
pub mod Finds
pub mod Within
use dlmm_sdk.Prelude.{
  ℕ, zero, suc, ◌+◌, ◌*◌, ◌/◌, ◌^◌, ◌||◌, if◌then◌else◌, none, some, Result, err, ok, Fueled, ◌>>=◌,
}
use dlmm_sdk.Prelude.Int.{ℤ, pos, neg_ℤ, ◌+ℤ◌, ◌-ℤ◌, ◌*ℤ◌, ltb_ℤ, leb_ℤ}
use dlmm_sdk.Constants.{scale_offset}
use dlmm_sdk.Math.{get_q_price_base_factor}
use dlmm_sdk.Math.Power.{get_q_price_from_id}
use dlmm_sdk.Positions.{ids_from_to}
use dlmm_sdk.Rebalance.Amounts.{get_amount_in_bins_ask_side}
use dlmm_sdk.Rebalance.Deposit.{div_ℤ}
use dlmm_sdk.Rebalance.Liquidity.{
  BidAskParameters, LiquidityStrategyParameterBuilder, reduce_amounts,
}

unfoldable pub find_y0 : (amount_y min_delta_id max_delta_id : ℤ) → Result ℤ
find_y0 amount_y min_delta_id max_delta_id =
    let m1 = neg_ℤ min_delta_id in
    let m2 = neg_ℤ max_delta_id in
    if ltb_ℤ max_delta_id min_delta_id || leb_ℤ amount_y (pos 0)
    then ok (pos 0)
    else div_ℤ amount_y (m1 -ℤ m2 +ℤ pos 1)

-- The loop over the prices, by the rounds left.
unfoldable pub weight_loop : (rounds base base_price total_weight : ℕ) → ℕ
weight_loop zero base base_price total_weight = total_weight
weight_loop (suc rounds) base base_price total_weight =
    weight_loop rounds base (base_price * base / 2 ^ scale_offset) (total_weight + base_price)

unfoldable pub find_base_x0 :
    (amount_x min_delta_id max_delta_id : ℤ) → (bin_step : ℕ) → (active_id : ℤ) → Result ℤ
find_base_x0 amount_x min_delta_id max_delta_id bin_step active_id =
    let min_bin_id = active_id +ℤ min_delta_id in
    let max_bin_id = active_id +ℤ max_delta_id in
    let total_weight =
      weight_loop (ids_from_to min_bin_id max_bin_id) (get_q_price_base_factor bin_step)
        (get_q_price_from_id (neg_ℤ max_bin_id) bin_step) 0 in
    div_ℤ (amount_x *ℤ pos (2 ^ scale_offset)) (pos total_weight)

-- The total of X over the bins of the ask side.
unfoldable pub total_x :
    (min_delta_id max_delta_id : ℤ) → (bin_step : ℕ) → (active_id delta_x x0 : ℤ) → Result ℤ
total_x min_delta_id max_delta_id bin_step active_id delta_x x0 =
    get_amount_in_bins_ask_side active_id bin_step min_delta_id max_delta_id delta_x x0
    >>= (λ bins. ok (reduce_amounts (λ b. b.amount_x) (pos 0) bins))

-- What throws does so for the rest.
abbrev pub from_base : Result ℤ → (ℤ → Fueled ℤ) → Fueled ℤ
from_base (err e) loop = some (err e)
from_base (ok x0) loop = loop x0

-- `while (true)` on fuel.
unfoldable pub x0_loop :
    (fuel : ℕ)
    → (amount_x min_delta_id max_delta_id : ℤ) → (bin_step : ℕ) → (active_id x0 : ℤ) → Fueled ℤ
x0_loop zero amount_x min_delta_id max_delta_id bin_step active_id x0 = none
x0_loop (suc fuel) amount_x min_delta_id max_delta_id bin_step active_id x0 =
    let more = x0_loop fuel amount_x min_delta_id max_delta_id bin_step active_id (x0 +ℤ pos 1) in
    from_base (total_x min_delta_id max_delta_id bin_step active_id (pos 0) x0)
      (λ total. if ltb_ℤ total amount_x then more else some (ok (x0 -ℤ pos 1)))

unfoldable pub find_x0 :
    (fuel : ℕ)
    → (amount_x min_delta_id max_delta_id : ℤ) → (bin_step : ℕ) → (active_id : ℤ) → Fueled ℤ
find_x0 fuel amount_x min_delta_id max_delta_id bin_step active_id =
    if ltb_ℤ max_delta_id min_delta_id || leb_ℤ amount_x (pos 0)
    then some (ok (pos 0))
    else from_base (find_base_x0 amount_x min_delta_id max_delta_id bin_step active_id)
        (x0_loop fuel amount_x min_delta_id max_delta_id bin_step active_id)

abbrev pub flat : Fueled ℤ → Fueled BidAskParameters
flat none = none
flat (some (err e)) = some (err e)
flat (some (ok base)) = some (ok (record { base = base; delta = pos 0 }))

unfoldable pub spot_builder : (fuel : ℕ) → LiquidityStrategyParameterBuilder
spot_builder fuel = record {
  find_x_parameters = λ amount_x min_delta_id max_delta_id bin_step active_id.
      flat (find_x0 fuel amount_x min_delta_id max_delta_id bin_step active_id);
  find_y_parameters = λ amount_y min_delta_id max_delta_id active_id.
      flat (some (find_y0 amount_y min_delta_id max_delta_id));
}
