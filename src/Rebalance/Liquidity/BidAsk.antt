-- ===== src/Rebalance/Liquidity/BidAsk.antt =====
-- rebalance/liquidity_strategy/bidAsk.ts: the amounts rise with the distance from the active bin. The
-- functions `findMinY0` and `findMinX0` of that file are not called.
use dlmm_sdk.Prelude.{ℕ, zero, suc, ◌^◌, ◌||◌, if◌then◌else◌, none, some, Result, ok, Fueled}
use dlmm_sdk.Prelude.Int.{ℤ, pos, neg_ℤ, ◌+ℤ◌, ◌-ℤ◌, ◌*ℤ◌, tdiv, ltb_ℤ, leb_ℤ, eqb_ℤ, is_zero_ℤ}
use dlmm_sdk.Constants.{scale_offset}
use dlmm_sdk.Math.Power.{get_q_price_from_id}
use dlmm_sdk.Positions.{ids_from_to}
use dlmm_sdk.Rebalance.Deposit.{div_ℤ}
use dlmm_sdk.Rebalance.Liquidity.{
  BidAskParameters, no_parameters, LiquidityStrategyParameterBuilder,
}
use dlmm_sdk.Rebalance.Liquidity.Spot.{total_x}
use dlmm_sdk.Rebalance.Liquidity.Curve.{total_y, divided}

unfoldable pub find_base_delta_y : (amount_y min_delta_id max_delta_id : ℤ) → Result ℤ
find_base_delta_y amount_y min_delta_id max_delta_id =
    let m1 = neg_ℤ min_delta_id -ℤ pos 1 in
    let m2 = neg_ℤ max_delta_id in
    let b = neg_ℤ m2 *ℤ (m1 -ℤ m2 +ℤ pos 1) in
    let c = tdiv (m1 *ℤ (m1 +ℤ pos 1)) 2 in
    let d = tdiv (m2 *ℤ (m2 -ℤ pos 1)) 2 in
    if ltb_ℤ max_delta_id min_delta_id || leb_ℤ amount_y (pos 0)
    then ok (pos 0)
    else if eqb_ℤ min_delta_id max_delta_id
    then ok amount_y
    else div_ℤ amount_y (b +ℤ (c -ℤ d))

-- `while (true)` on fuel, at a base that stays.
unfoldable pub delta_y_loop :
    (fuel : ℕ)
    → (amount_y min_delta_id max_delta_id active_id y0 base_delta_y : ℤ) → Fueled BidAskParameters
delta_y_loop zero amount_y min_delta_id max_delta_id active_id y0 base_delta_y = none
delta_y_loop (suc fuel) amount_y min_delta_id max_delta_id active_id y0 base_delta_y =
    let less =
      delta_y_loop fuel amount_y min_delta_id max_delta_id active_id y0 (base_delta_y -ℤ pos 1) in
    if ltb_ℤ amount_y (total_y min_delta_id max_delta_id active_id base_delta_y y0)
    then less
    else some (ok (record { base = y0; delta = base_delta_y }))

unfoldable pub bid_ask_find_y :
    (fuel : ℕ) → (amount_y min_delta_id max_delta_id active_id : ℤ) → Fueled BidAskParameters
bid_ask_find_y fuel amount_y min_delta_id max_delta_id active_id =
    if ltb_ℤ max_delta_id min_delta_id || is_zero_ℤ amount_y
    then some (ok no_parameters)
    else divided (find_base_delta_y amount_y min_delta_id max_delta_id) (λ base_delta_y.
      delta_y_loop fuel amount_y min_delta_id max_delta_id active_id
        (neg_ℤ base_delta_y *ℤ max_delta_id +ℤ base_delta_y) base_delta_y)

-- The sums of the loop over the deltas, by the rounds left.
unfoldable pub weighted_sums : (rounds bin_step : ℕ) → (m1 active_id m b c : ℤ) → ℤ × ℤ
weighted_sums zero bin_step m1 active_id m b c = (b, c)
weighted_sums (suc rounds) bin_step m1 active_id m b c =
    let pm = pos (get_q_price_from_id (neg_ℤ (active_id +ℤ m)) bin_step) in
    weighted_sums rounds bin_step m1 active_id (m +ℤ pos 1) (b +ℤ m1 *ℤ pm) (c +ℤ m *ℤ pm)

unfoldable pub find_base_delta_x :
    (amount_x min_delta_id max_delta_id : ℤ) → (bin_step : ℕ) → (active_id : ℤ) → Result ℤ
find_base_delta_x amount_x min_delta_id max_delta_id bin_step active_id =
    let m2 = max_delta_id +ℤ pos 1 in
    let sums =
      weighted_sums (ids_from_to min_delta_id m2) bin_step min_delta_id active_id min_delta_id
        (pos 0) (pos 0) in
    if ltb_ℤ max_delta_id min_delta_id || leb_ℤ amount_x (pos 0)
    then ok (pos 0)
    else div_ℤ (amount_x *ℤ pos (2 ^ scale_offset)) (sums.1 -ℤ sums.0)

-- `while (true)` on fuel, at a base that stays.
unfoldable pub delta_x_loop :
    (fuel : ℕ)
    → (amount_x min_delta_id max_delta_id : ℤ) → (bin_step : ℕ) → (active_id x0 base_delta_x : ℤ)
    → Fueled BidAskParameters
delta_x_loop zero amount_x min_delta_id max_delta_id bin_step active_id x0 base_delta_x = none
delta_x_loop (suc fuel) amount_x min_delta_id max_delta_id bin_step active_id x0 base_delta_x =
    let less =
      delta_x_loop fuel amount_x min_delta_id max_delta_id bin_step active_id x0
        (base_delta_x -ℤ pos 1) in
    divided (total_x min_delta_id max_delta_id bin_step active_id base_delta_x x0) (λ total.
      if ltb_ℤ amount_x total then less else some (ok (record { base = x0; delta = base_delta_x })))

unfoldable pub bid_ask_find_x :
    (fuel : ℕ)
    → (amount_x min_delta_id max_delta_id : ℤ) → (bin_step : ℕ) → (active_id : ℤ)
    → Fueled BidAskParameters
bid_ask_find_x fuel amount_x min_delta_id max_delta_id bin_step active_id =
    if ltb_ℤ max_delta_id min_delta_id || leb_ℤ amount_x (pos 0)
    then some (ok no_parameters)
    else divided (find_base_delta_x amount_x min_delta_id max_delta_id bin_step active_id)
        (λ base_delta_x.
          delta_x_loop fuel amount_x min_delta_id max_delta_id bin_step active_id
            (neg_ℤ min_delta_id *ℤ base_delta_x +ℤ base_delta_x) base_delta_x)

unfoldable pub bid_ask_builder : (fuel : ℕ) → LiquidityStrategyParameterBuilder
bid_ask_builder fuel = record {
  find_x_parameters = bid_ask_find_x fuel;
  find_y_parameters = bid_ask_find_y fuel;
}
