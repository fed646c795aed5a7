-- ===== src/Examples/Rebalances.antt =====
-- The simulation of a rebalance at concrete data.
use dlmm_sdk.Prelude.{
  ◌≡◌, refl, arith, true, false, some, none, ok, err, assertion_failed, List, [], ◌∷◌,
}
use dlmm_sdk.Prelude.Int.{ℤ, pos, negsuc, neg_ℤ, tdiv, ◌+ℤ◌, ◌-ℤ◌, ◌*ℤ◌, ◌≤ℤ◌, *ℤ_parts, int_laws}
use dlmm_sdk.Prelude.Numbers.{testn}
use dlmm_sdk.Math.{get_q_price_base_factor}
use dlmm_sdk.Math.Power.{pow, pow_steps, finish}
use dlmm_sdk.Positions.{indexes_from}
use dlmm_sdk.Rebalance.{
  RebalancePositionBinData, RebalancePosition, RebalanceWithWithdraw, RebalanceWithDeposit,
  bin_range_to_bin_id_array,
}
use dlmm_sdk.Rebalance.Withdraw.{Withdrawal, simulate_withdraw}
use dlmm_sdk.Rebalance.Conserved.{IsConserved, simulate_withdraw-IsConserved}
use dlmm_sdk.Rebalance.Order.{
  validate_and_sort_rebalance_withdraw, validate_and_sort_rebalance_deposit, are_deposits_valid,
  sort_by, insert_by, fill_withdraws, check_overlap, are_apart_from,
}
use dlmm_sdk.Rebalance.Order.Schedules.{IsSchedule, validate_and_sort_rebalance_withdraw-IsSchedule}
use dlmm_sdk.Rebalance.Order.Deposits.{
  IsDepositSchedule, validate_and_sort_rebalance_deposit-IsDepositSchedule,
}
use dlmm_sdk.Examples.Data.{s, v}
use dlmm_sdk.Rebalance.Totals.{bin_ids}
use dlmm_sdk.Rebalance.Conserved.{HasRange}
use dlmm_sdk.Rebalance.Resize.{
  simulate_resize, empty_bin, find_min_max_bin_id_with_liquidity, min_max_loop, is_bin_empty,
  resize_lower, resize_upper, unshift_bins, push_bins, shift_bins, pop_bins, max_ℤ,
}
use dlmm_sdk.Rebalance.Resize.Covers.{simulate_resize-HasRange}
use dlmm_sdk.Rebalance.Deposit.{DepositContext, Deposited}
use dlmm_sdk.Rebalance.Deposit.Simulate.{deposit_ranges, add_liquidity_param}
use dlmm_sdk.Rebalance.Coverage.{get_rebalance_bin_array_indexes}
use dlmm_sdk.Rebalance.Coverage.Ranges.{listed, get_rebalance_bin_array_indexes-listed}
use dlmm_sdk.Rebalance.Deposit.Grows.{IsGrown, deposit_ranges-IsGrown}
use dlmm_sdk.Rebalance.Amounts.{
  AmountIntoBin, to_amount_into_bins, only_deposit_to_bid_side, only_deposit_to_ask_side,
  get_amount_in_bins_ask_side, ask_loop,
}
use dlmm_sdk.Rebalance.Amounts.Asks.{Deposits}
use dlmm_sdk.Rebalance.Amounts.Sides.{IsDeposit, to_amount_into_bins-IsDeposit}

abbrev pub data_at : ℤ → RebalancePositionBinData
data_at b = record {
  bin_id = b;
  amount_x = pos 1000;
  amount_y = pos 333;
  claimable_reward_amount = (pos 7, pos 0);
  claimable_fee_x_amount = pos 12;
  claimable_fee_y_amount = pos 0;
}

abbrev pub position : RebalancePosition
position = record {
  lower_bin_id = negsuc 0;
  upper_bin_id = pos 1;
  active_id = pos 0;
  should_claim_fee = true;
  should_claim_reward = false;
  rebalance_position_bin_data = data_at (negsuc 0) ∷ data_at (pos 0) ∷ data_at (pos 1) ∷ [];
}

abbrev half_up : RebalanceWithWithdraw
half_up = record { min_bin_id = none; max_bin_id = some (pos 5); bps = pos 5000 }

abbrev all_below : RebalanceWithWithdraw
all_below = record { min_bin_id = some (negsuc 3); max_bin_id = some (negsuc 0); bps = pos 10000 }

abbrev half_filled : RebalanceWithWithdraw
half_filled = record { min_bin_id = some (pos 0); max_bin_id = some (pos 5); bps = pos 5000 }

simulate_withdraw-IsConserved_example :
    (v : Withdrawal) × (simulate_withdraw position (half_up ∷ all_below ∷ []) ≡ ok v)
    × IsConserved position.rebalance_position_bin_data v
unfolding bin_range_to_bin_id_array indexes_from ◌+ℤ◌
simulate_withdraw-IsConserved_example =
    simulate_withdraw-IsConserved position (half_up ∷ all_below ∷ []) refl

validate_and_sort_rebalance_withdraw-IsSchedule_example :
    IsSchedule (pos 0) (half_up ∷ all_below ∷ []) (all_below ∷ half_filled ∷ [])
    × (validate_and_sort_rebalance_withdraw (all_below ∷ half_filled ∷ []) (pos 0)
        ≡ ok (all_below ∷ half_filled ∷ []))
unfolding validate_and_sort_rebalance_withdraw fill_withdraws sort_by insert_by check_overlap
    are_apart_from
validate_and_sort_rebalance_withdraw-IsSchedule_example =
    validate_and_sort_rebalance_withdraw-IsSchedule (half_up ∷ all_below ∷ [])
      (all_below ∷ half_filled ∷ []) (pos 0) refl

abbrev deposit_over : ℤ → ℤ → RebalanceWithDeposit
deposit_over lo hi = record {
  min_delta_id = lo;
  max_delta_id = hi;
  x0 = pos 10;
  y0 = pos 20;
  delta_x = pos 1;
  delta_y = pos 2;
  favor_x_in_active_bin = false;
}

validate_and_sort_rebalance_deposit-IsDepositSchedule_example :
    IsDepositSchedule
      (deposit_over (pos 1) (pos 4) ∷ deposit_over (negsuc 4) (pos 0) ∷ [])
      (deposit_over (negsuc 4) (pos 0) ∷ deposit_over (pos 1) (pos 4) ∷ [])
    × (validate_and_sort_rebalance_deposit
          (deposit_over (negsuc 4) (pos 0) ∷ deposit_over (pos 1) (pos 4) ∷ [])
        ≡ ok (deposit_over (negsuc 4) (pos 0) ∷ deposit_over (pos 1) (pos 4) ∷ []))
unfolding validate_and_sort_rebalance_deposit are_deposits_valid sort_by insert_by check_overlap
    are_apart_from
validate_and_sort_rebalance_deposit-IsDepositSchedule_example =
    validate_and_sort_rebalance_deposit-IsDepositSchedule
      (deposit_over (pos 1) (pos 4) ∷ deposit_over (negsuc 4) (pos 0) ∷ [])
      (deposit_over (negsuc 4) (pos 0) ∷ deposit_over (pos 1) (pos 4) ∷ []) refl

to_amount_into_bins-IsDeposit_example :
    (bins : List AmountIntoBin) × Deposits
      (pos 3)
      (negsuc 4)
      (pos 4)
      (pos 1)
      (pos 10)
      bins
      (to_amount_into_bins (pos 3) (negsuc 4) (pos 4) (pos 1) (pos 2) (pos 10) (pos 20) 25 false)
    × IsDeposit (pos 3) (negsuc 4) (pos 4) (pos 2) (pos 20) bins
to_amount_into_bins-IsDeposit_example =
    to_amount_into_bins-IsDeposit (pos 3) (negsuc 4) (pos 4) (pos 1) (pos 2) (pos 10) (pos 20) 25
      false (omega arith)

-- A base below zero fails the assertion.
negative_test :
    to_amount_into_bins (pos 3) (pos 1) (pos 2) (pos 1) (pos 2) (negsuc 9) (pos 20) 25 false
    ≡ err assertion_failed
unfolding to_amount_into_bins only_deposit_to_bid_side only_deposit_to_ask_side
    get_amount_in_bins_ask_side ask_loop get_q_price_base_factor pow pow_steps finish testn neg_ℤ
    tdiv ◌+ℤ◌ ◌-ℤ◌ ◌*ℤ◌
negative_test = refl

simulate_resize-HasRange_example :
    HasRange (simulate_resize position (negsuc 3) (pos 4))
    × ((simulate_resize position (negsuc 3) (pos 4)).lower_bin_id ≤ℤ negsuc 3)
    × (pos 4 ≤ℤ (simulate_resize position (negsuc 3) (pos 4)).upper_bin_id)
unfolding bin_range_to_bin_id_array indexes_from ◌+ℤ◌
simulate_resize-HasRange_example =
    simulate_resize-HasRange position (negsuc 3) (pos 4) refl (omega arith) (omega arith)
      (omega int_laws)

abbrev context : DepositContext
context = record {
  bin_step = 25;
  parameters = s;
  v_parameters = v;
  active_id = pos 0;
  active_bin = none;
  current_timestamp = pos 2000;
}

abbrev before_deposit : Deposited
before_deposit = record {
  bins = position.rebalance_position_bin_data;
  total_amount_x_deposited = pos 0;
  total_amount_y_deposited = pos 0;
}

deposit_ranges-IsGrown_example :
    (e : Deposited) × (deposit_ranges context (deposit_over (negsuc 0) (pos 1) ∷ []) before_deposit
      ≡ ok e)
    × IsGrown before_deposit e
unfolding bin_range_to_bin_id_array indexes_from ◌+ℤ◌
deposit_ranges-IsGrown_example =
    deposit_ranges-IsGrown context (deposit_over (negsuc 0) (pos 1) ∷ []) before_deposit (negsuc 0)
      (pos 1) refl refl
      (
        record {
          not_negative = λ b above from to. omega (int_laws, above, *ℤ_parts (pos 1) (b -ℤ pos 0));
          above = omega int_laws;
          below = omega int_laws;
          order = omega arith;
        },
        tt,
      )

-- An empty position below a deposit that does not touch it keeps bins outside its new range.
abbrev emptied : RebalancePosition
emptied = record position {
  rebalance_position_bin_data = empty_bin (negsuc 0) ∷ empty_bin (pos 0) ∷ empty_bin (pos 1) ∷ [];
}

gap_test :
    bin_ids (simulate_resize emptied (pos 4) (pos 5)).rebalance_position_bin_data
    ≡ pos 2 ∷ pos 3 ∷ pos 4 ∷ pos 5 ∷ []
unfolding simulate_resize find_min_max_bin_id_with_liquidity min_max_loop is_bin_empty resize_lower
    resize_upper unshift_bins push_bins shift_bins pop_bins max_ℤ ◌+ℤ◌ ◌-ℤ◌
gap_test = refl

get_rebalance_bin_array_indexes-listed_example :
    get_rebalance_bin_array_indexes
      (add_liquidity_param (deposit_over (negsuc 80) (pos 1)) ∷ [])
      (half_filled ∷ [])
      (pos 0)
    ≡ some (listed ((negsuc 80, pos 1) ∷ []) (listed ((pos 0, pos 5) ∷ []) []))
unfolding ◌+ℤ◌
get_rebalance_bin_array_indexes-listed_example =
    get_rebalance_bin_array_indexes-listed
      (add_liquidity_param (deposit_over (negsuc 80) (pos 1)) ∷ []) (half_filled ∷ []) (pos 0)
      (omega arith, tt) (omega arith, tt)
