-- ===== src/Rebalance/Liquidity/Curve.antt =====
-- rebalance/liquidity_strategy/curve.ts: the amounts fall with the distance from the active bin. A
-- private function whose name another strategy has too is named after its strategy.
pub mod Base
pub mod Ends
use dlmm_sdk.Prelude.{
  ℕ, zero, suc, ◌^◌, ◌||◌, if◌then◌else◌, none, some, Result, err, ok, Fueled, ◌>>=◌,
}
use dlmm_sdk.Prelude.Int.{ℤ, pos, neg_ℤ, ◌+ℤ◌, ◌-ℤ◌, ◌*ℤ◌, tdiv, ltb_ℤ, leb_ℤ, eqb_ℤ, is_zero_ℤ}
use dlmm_sdk.Constants.{scale_offset}
use dlmm_sdk.Math.Power.{get_q_price_from_id}
use dlmm_sdk.Positions.{ids_from_to}
use dlmm_sdk.Rebalance.Amounts.{get_amount_in_bins_bid_side}
use dlmm_sdk.Rebalance.Deposit.{div_ℤ}
use dlmm_sdk.Rebalance.Liquidity.{
  BidAskParameters, no_parameters, after, LiquidityStrategyParameterBuilder, reduce_amounts,
}
use dlmm_sdk.Rebalance.Liquidity.Spot.{total_x}

-- The total of Y over the bins of the bid side.
unfoldable pub total_y : (min_delta_id max_delta_id active_id delta_y y0 : ℤ) → ℤ
total_y min_delta_id max_delta_id active_id delta_y y0 =
    reduce_amounts (λ b. b.amount_y) (pos 0)
      (get_amount_in_bins_bid_side active_id min_delta_id max_delta_id delta_y y0)

unfoldable pub find_base_y0 : (amount_y min_delta_id max_delta_id : ℤ) → Result ℤ
find_base_y0 amount_y min_delta_id max_delta_id =
    let m1 = neg_ℤ min_delta_id in
    let m2 = neg_ℤ max_delta_id in
    let b = m1 -ℤ m2 +ℤ pos 1 in
    let c = tdiv (m1 *ℤ (m1 +ℤ pos 1)) 2 in
    let d = tdiv (m2 *ℤ (m2 -ℤ pos 1)) 2 in
    if ltb_ℤ max_delta_id min_delta_id || leb_ℤ amount_y (pos 0)
    then ok (pos 0)
    else if eqb_ℤ min_delta_id max_delta_id
    then ok amount_y
    else do rest ← div_ℤ (c -ℤ d) (m1 +ℤ pos 1); div_ℤ amount_y (b -ℤ rest)

-- The result of a division, or its error, with what follows it.
abbrev pub divided : Result ℤ → (ℤ → Fueled BidAskParameters) → Fueled BidAskParameters
divided (err e) next = some (err e)
divided (ok q) next = next q

-- `while (true)` on fuel.
unfoldable pub y0_loop :
    (fuel : ℕ)
    → (amount_y min_delta_id max_delta_id active_id base_y0 : ℤ) → Fueled BidAskParameters
y0_loop zero amount_y min_delta_id max_delta_id active_id base_y0 = none
y0_loop (suc fuel) amount_y min_delta_id max_delta_id active_id base_y0 =
    let less = y0_loop fuel amount_y min_delta_id max_delta_id active_id (base_y0 -ℤ pos 1) in
    divided (div_ℤ (neg_ℤ base_y0) (neg_ℤ min_delta_id +ℤ pos 1)) (λ delta_y.
      if ltb_ℤ amount_y (total_y min_delta_id max_delta_id active_id delta_y base_y0)
      then less
      else some (ok (record { base = base_y0; delta = delta_y })))

unfoldable pub find_y0_and_delta_y :
    (fuel : ℕ) → (amount_y min_delta_id max_delta_id active_id : ℤ) → Fueled BidAskParameters
find_y0_and_delta_y fuel amount_y min_delta_id max_delta_id active_id =
    if ltb_ℤ max_delta_id min_delta_id || is_zero_ℤ amount_y
    then some (ok no_parameters)
    else divided (find_base_y0 amount_y min_delta_id max_delta_id)
        (y0_loop fuel amount_y min_delta_id max_delta_id active_id)

-- The loop over the deltas, by the rounds left.
unfoldable pub b_c_loop : (rounds bin_step : ℕ) → (m2 active_id m b c : ℤ) → Result (ℤ × ℤ)
b_c_loop zero bin_step m2 active_id m b c = ok (b, c)
b_c_loop (suc rounds) bin_step m2 active_id m b c =
    let pm = pos (get_q_price_from_id (neg_ℤ (active_id +ℤ m)) bin_step) in
    do
      c_delta ← div_ℤ (m *ℤ pm) m2
      b_c_loop rounds bin_step m2 active_id (m +ℤ pos 1) (b +ℤ pm) (c +ℤ c_delta)

unfoldable pub find_base_x0_of_curve :
    (amount_x min_delta_id max_delta_id : ℤ) → (bin_step : ℕ) → (active_id : ℤ) → Result ℤ
find_base_x0_of_curve amount_x min_delta_id max_delta_id bin_step active_id =
    let sums =
      b_c_loop (ids_from_to min_delta_id max_delta_id) bin_step max_delta_id active_id min_delta_id
        (pos 0) (pos 0) in
    if ltb_ℤ max_delta_id min_delta_id || leb_ℤ amount_x (pos 0)
    then ok (pos 0)
    else sums >>= λ (b_c : ℤ × ℤ). div_ℤ (amount_x *ℤ pos (2 ^ scale_offset)) (b_c.0 -ℤ b_c.1)

-- `while (true)` on fuel, at a delta that stays.
unfoldable pub curve_x0_loop :
    (fuel : ℕ)
    → (amount_x min_delta_id max_delta_id : ℤ) → (bin_step : ℕ) → (active_id delta_x base_x0 : ℤ)
    → Fueled BidAskParameters
curve_x0_loop zero amount_x min_delta_id max_delta_id bin_step active_id delta_x base_x0 = none
curve_x0_loop (suc fuel) amount_x min_delta_id max_delta_id bin_step active_id delta_x base_x0 =
    let less =
      curve_x0_loop fuel amount_x min_delta_id max_delta_id bin_step active_id delta_x
        (base_x0 -ℤ pos 1) in
    divided (total_x min_delta_id max_delta_id bin_step active_id delta_x base_x0) (λ total.
      if ltb_ℤ amount_x total then less else some (ok (record { base = base_x0; delta = delta_x })))

unfoldable pub find_x0_and_delta_x :
    (fuel : ℕ)
    → (amount_x min_delta_id max_delta_id : ℤ) → (bin_step : ℕ) → (active_id : ℤ)
    → Fueled BidAskParameters
find_x0_and_delta_x fuel amount_x min_delta_id max_delta_id bin_step active_id =
    if ltb_ℤ max_delta_id min_delta_id || leb_ℤ amount_x (pos 0)
    then some (ok no_parameters)
    else divided (find_base_x0_of_curve amount_x min_delta_id max_delta_id bin_step active_id)
        (λ base_x0. divided (div_ℤ (neg_ℤ base_x0) max_delta_id) (λ delta_x.
          curve_x0_loop fuel amount_x min_delta_id max_delta_id bin_step active_id delta_x base_x0))

unfoldable pub curve_builder : (fuel : ℕ) → LiquidityStrategyParameterBuilder
curve_builder fuel = record {
  find_x_parameters = find_x0_and_delta_x fuel;
  find_y_parameters = find_y0_and_delta_y fuel;
}
