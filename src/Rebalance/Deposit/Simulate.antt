-- ===== src/Rebalance/Deposit/Simulate.antt =====
-- rebalancePosition.ts, `_simulateDeposit` as a whole and `simulateRebalance`. The rent of an account
-- by its size, which the RPC node is asked for, is a parameter.
use dlmm_sdk.Prelude.{
  ℕ, ◌*◌, Bool, if◌then◌else◌, List, [], ◌∷◌, map, Result, ok, err, ◌>>=◌, no_rebalance_action,
}
use dlmm_sdk.Prelude.Int.{ℤ, pos, nat_abs, ◌+ℤ◌, ◌-ℤ◌, ltb_ℤ, is_zero_ℤ}
use dlmm_sdk.Swap.{set_key}
use dlmm_sdk.Rebalance.{
  RebalancePosition, RebalanceWithDeposit, RebalanceWithWithdraw, bin_range_to_bin_id_array,
}
use dlmm_sdk.Rebalance.Withdraw.{SimulateWithdrawResult, simulate_withdraw}
use dlmm_sdk.Rebalance.Order.{
  sort_by, validate_and_sort_rebalance_withdraw, validate_and_sort_rebalance_deposit,
}
use dlmm_sdk.Rebalance.Amounts.{
  to_amount_into_bins, StrategyParameters, build_bit_flag_and_negate_strategy_parameters,
}
use dlmm_sdk.Rebalance.Resize.{simulate_resize, max_ℤ}
use dlmm_sdk.Rebalance.Deposit.{DepositContext, Deposited, deposit_amounts}

-- `Set.add` over a range of bin ids.
unfoldable pub add_ids : List ℤ → List ℤ → List ℤ
add_ids unique [] = unique
add_ids unique (b ∷ ids) = add_ids (set_key unique b) ids

unfoldable pub unique_bin_ids : ℤ → List ℤ → List RebalanceWithDeposit → List ℤ
unique_bin_ids active_id unique [] = unique
unique_bin_ids active_id unique (d ∷ deposits) =
    let ids =
      bin_range_to_bin_id_array (active_id +ℤ d.min_delta_id) (active_id +ℤ d.max_delta_id) in
    unique_bin_ids active_id (add_ids unique ids) deposits

unfoldable pub get_deposit_bin_ids : ℤ → List RebalanceWithDeposit → List ℤ
get_deposit_bin_ids active_id deposits = sort_by (λ b. b) (unique_bin_ids active_id [] deposits)

abbrev pub last_of : ℤ → List ℤ → ℤ
last_of b [] = b
last_of b (c ∷ ids) = last_of c ids

abbrev pub resize_to : RebalancePosition → List ℤ → RebalancePosition
resize_to p [] = p
resize_to p (b ∷ ids) = simulate_resize p b (last_of b ids)

unfoldable pub deposit_ranges :
    DepositContext → List RebalanceWithDeposit → Deposited → Result Deposited
deposit_ranges c [] d = ok d
deposit_ranges c (r ∷ deposits) d =
    to_amount_into_bins c.active_id r.min_delta_id r.max_delta_id r.delta_x r.delta_y r.x0 r.y0
      c.bin_step r.favor_x_in_active_bin
    >>= (λ amounts. deposit_amounts c amounts d)
    >>= (λ e. deposit_ranges c deposits e)

-- What is deposited comes first out of what was withdrawn: what is left to pay and what is left over.
unfoldable pub net_of : (deposited withdrawn : ℤ) → ℤ × ℤ
net_of deposited withdrawn =
    if ltb_ℤ withdrawn deposited
    then (deposited -ℤ withdrawn, pos 0)
    else (pos 0, withdrawn -ℤ deposited)

pub record SimulateDepositResult : Type 0 where
  pub total_amount_x_deposited : ℤ
  pub total_amount_y_deposited : ℤ
  pub actual_total_amount_x_deposited : ℤ
  pub actual_total_amount_y_deposited : ℤ
  pub actual_liquidity_and_fee_x_withdrawn : ℤ
  pub actual_liquidity_and_fee_y_withdrawn : ℤ

pub record RebalanceAddLiquidityParam : Type 0 where
  pub min_delta_id : ℤ
  pub max_delta_id : ℤ
  pub strategy : StrategyParameters
  pub favor_x_in_active_id : Bool

abbrev pub add_liquidity_param : RebalanceWithDeposit → RebalanceAddLiquidityParam
add_liquidity_param d = record {
  min_delta_id = d.min_delta_id;
  max_delta_id = d.max_delta_id;
  strategy = build_bit_flag_and_negate_strategy_parameters d.x0 d.y0 d.delta_x d.delta_y;
  favor_x_in_active_id = d.favor_x_in_active_bin;
}

unfoldable pub deposit_result : Deposited → SimulateWithdrawResult → SimulateDepositResult
deposit_result d w =
    let x = net_of d.total_amount_x_deposited w.liquidity_and_fee_x_withdrawn in
    let y = net_of d.total_amount_y_deposited w.liquidity_and_fee_y_withdrawn in
    record {
      total_amount_x_deposited = d.total_amount_x_deposited;
      total_amount_y_deposited = d.total_amount_y_deposited;
      actual_total_amount_x_deposited = x.0;
      actual_total_amount_y_deposited = y.0;
      actual_liquidity_and_fee_x_withdrawn = x.1;
      actual_liquidity_and_fee_y_withdrawn = y.1;
    }

-- The position after the deposit, and the result. The parameters are `add_liquidity_param` of each
-- deposit.
unfoldable pub simulate_deposit :
    DepositContext
    → List RebalanceWithDeposit
    → SimulateWithdrawResult
    → RebalancePosition
    → Result (RebalancePosition × SimulateDepositResult)
simulate_deposit c deposits w p =
    let q = resize_to p (get_deposit_bin_ids c.active_id deposits) in
    do
      d ← deposit_ranges c deposits (record {
        bins = q.rebalance_position_bin_data;
        total_amount_x_deposited = pos 0;
        total_amount_y_deposited = pos 0;
      })
      ok (record q { rebalance_position_bin_data = d.bins }, deposit_result d w)

unfoldable pub get_position_width_with_min_width : (lower upper : ℤ) → ℤ
get_position_width_with_min_width lower upper = max_ℤ (upper -ℤ lower +ℤ pos 1) (pos 70)

abbrev pub position_bin_data_size : ℕ
position_bin_data_size = 112

pub record SimulateRebalanceResp : Type 0 where
  pub deposit : SimulateDepositResult
  pub reward_amounts_claimed : ℤ × ℤ
  pub deposit_params : List RebalanceAddLiquidityParam
  pub withdraw_params : List RebalanceWithWithdraw
  pub rental_cost_lamports : ℤ

module _ (get_minimum_balance_for_rent_exemption : ℕ → ℤ) where
  unfoldable pub rental_cost : (width_delta : ℤ) → ℤ
  rental_cost width_delta =
      let changes =
        get_minimum_balance_for_rent_exemption (nat_abs width_delta * position_bin_data_size)
        -ℤ get_minimum_balance_for_rent_exemption 0 in
      if is_zero_ℤ width_delta
      then pos 0
      else if ltb_ℤ (pos 0) width_delta
      then pos 0 +ℤ changes
      else pos 0 -ℤ changes

  -- The position after the rebalance, and the response.
  unfoldable pub simulate_rebalance :
      DepositContext
      → List RebalanceWithWithdraw
      → List RebalanceWithDeposit
      → RebalancePosition
      → Result (RebalancePosition × SimulateRebalanceResp)
  simulate_rebalance c [] [] p = err no_rebalance_action
  simulate_rebalance c withdraws deposits p = do
    ws ← validate_and_sort_rebalance_withdraw withdraws p.active_id
    ds ← validate_and_sort_rebalance_deposit deposits
    let before = get_position_width_with_min_width p.lower_bin_id p.upper_bin_id
    w ← simulate_withdraw p ws
    q ← simulate_deposit c ds w.1 (record p { rebalance_position_bin_data = w.0 })
    let after = get_position_width_with_min_width q.0.lower_bin_id q.0.upper_bin_id
    ok (
      q.0,
      record {
        deposit = q.1;
        reward_amounts_claimed = w.1.rewards_amount_claimed;
        deposit_params = map add_liquidity_param ds;
        withdraw_params = ws;
        rental_cost_lamports = rental_cost (after -ℤ before);
      },
    )
