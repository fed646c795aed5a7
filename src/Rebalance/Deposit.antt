-- ===== src/Rebalance/Deposit.antt =====
-- rebalancePosition.ts, `_simulateDeposit`: the bins of the position are resized to cover the
-- deposits, and the amounts are added bin by bin. In the active bin they go through the share of the
-- liquidity and the composition fee.
pub mod Simulate
pub mod Grows
use dlmm_sdk.Prelude.{
  ℕ, ◌+◌, ◌*◌, ◌^◌, Bool, true, false, ◌==◌, if◌then◌else◌, Option, none, some, List, [], ◌∷◌,
  Result, ok, err, ◌>>=◌, from_option, type_error, assertion_failed,
}
use dlmm_sdk.Prelude.Int.{
  ℤ, pos, pos_part, nat_abs, is_neg, neg_ℤ, ◌+ℤ◌, ◌-ℤ◌, ◌*ℤ◌, tdiv, ltb_ℤ, leb_ℤ, eqb_ℤ, is_zero_ℤ,
}
use dlmm_sdk.Constants.{scale_offset, fee_precision}
use dlmm_sdk.Pair.{Bin, SParameters, VParameters}
use dlmm_sdk.Fee.{get_total_fee}
use dlmm_sdk.Math.Power.{get_q_price_from_id}
use dlmm_sdk.Volatility.{update_reference, update_volatility_accumulator}
use dlmm_sdk.Rebalance.{
  RebalancePositionBinData, RebalancePosition, RebalanceWithDeposit, bin_range_to_bin_id_array,
}
use dlmm_sdk.Rebalance.Withdraw.{SimulateWithdrawResult}
use dlmm_sdk.Rebalance.Amounts.{AmountIntoBin, to_amount_into_bins}
use dlmm_sdk.Rebalance.Resize.{simulate_resize}

-- `shln` of BN asserts that the number is not negative.
unfoldable pub get_liquidity : (x y : ℤ) → (price : ℕ) → Result ℤ
get_liquidity x y price =
    if is_neg y then err assertion_failed else ok (pos price *ℤ x +ℤ y *ℤ pos (2 ^ scale_offset))

-- The two outcomes of `div` of BN: it throws at a divisor of zero.
unfoldable pub div_ℤ : ℤ → ℤ → Result ℤ
div_ℤ a b =
    if is_zero_ℤ b
    then err assertion_failed
    else if is_neg b
    then ok (neg_ℤ (tdiv a (nat_abs b)))
    else ok (tdiv a (pos_part b))

unfoldable pub compute_composition_fee :
    (bin_step : ℕ)
    → SParameters
    → VParameters
    → (out_amount_x in_amount_x out_amount_y in_amount_y : ℤ) → ℤ
compute_composition_fee bin_step s v out_amount_x in_amount_x out_amount_y in_amount_y =
    let total_fee_rate = get_total_fee bin_step s v in
    let fee_amount = (in_amount_y -ℤ out_amount_y) *ℤ pos total_fee_rate in
    if ltb_ℤ in_amount_x out_amount_x
    then tdiv (fee_amount *ℤ pos (fee_precision + total_fee_rate)) (fee_precision ^ 2)
    else pos 0

-- The quotients are taken before the products.
unfoldable pub share_of_bin :
    (in_liquidity bin_liquidity amount_x amount_y : ℤ) → Bin → Result (ℤ × ℤ)
share_of_bin in_liquidity bin_liquidity amount_x amount_y bin =
    let supply = pos bin.liquidity_supply in
    do
      liquidity_share ← div_ℤ (in_liquidity *ℤ supply) bin_liquidity
      let updated_supply = supply +ℤ liquidity_share
      x ← div_ℤ (pos bin.amount_x +ℤ amount_x) updated_supply
      y ← div_ℤ (pos bin.amount_y +ℤ amount_y) updated_supply
      ok (liquidity_share *ℤ x, liquidity_share *ℤ y)

-- `none` is a bin that is missing.
unfoldable pub simulate_deposit_bin :
    (bin_id : ℤ) → (bin_step : ℕ) → (amount_x amount_y : ℤ) → Option Bin → Result (ℤ × ℤ)
simulate_deposit_bin bin_id bin_step amount_x amount_y none = ok (amount_x, amount_y)
simulate_deposit_bin bin_id bin_step amount_x amount_y (some bin) =
    let price = get_q_price_from_id bin_id bin_step in
    do
      in_liquidity ← get_liquidity amount_x amount_y price
      bin_liquidity ← get_liquidity (pos bin.amount_x) (pos bin.amount_y) price
      (if bin.liquidity_supply == 0
          then ok (amount_x, amount_y)
          else share_of_bin in_liquidity bin_liquidity amount_x amount_y bin)

-- What the simulation reads of the pair and the clock: `currentTimestamp` is in seconds.
pub record DepositContext : Type 0 where
  pub bin_step : ℕ
  pub parameters : SParameters
  pub v_parameters : VParameters
  pub active_id : ℤ
  pub active_bin : Option Bin
  pub current_timestamp : ℤ

-- What goes into the active bin.
unfoldable pub into_active_bin : DepositContext → AmountIntoBin → Result (ℤ × ℤ)
into_active_bin c a =
    let s = c.parameters in
    let moved = update_reference c.active_id c.v_parameters s (c.current_timestamp *ℤ pos 1000) in
    let v = update_volatility_accumulator moved s c.active_id in
    do
      into ← simulate_deposit_bin a.bin_id c.bin_step a.amount_x a.amount_y c.active_bin
      let fee_y = compute_composition_fee c.bin_step s v into.0 a.amount_x into.1 a.amount_y
      let fee_x = compute_composition_fee c.bin_step s v into.1 a.amount_y into.0 a.amount_x
      ok (into.0 -ℤ fee_x, into.1 -ℤ fee_y)

unfoldable pub into_bin : DepositContext → AmountIntoBin → Result (ℤ × ℤ)
into_bin c a =
    if eqb_ℤ a.bin_id c.active_id then into_active_bin c a else ok (a.amount_x, a.amount_y)

abbrev pub behind_bin :
    RebalancePositionBinData
    → Result (List RebalancePositionBinData)
    → Result (List RebalancePositionBinData)
behind_bin b (err e) = err e
behind_bin b (ok bins) = ok (b ∷ bins)

-- `findIndex` and the addition to that bin; without one, the amount of `undefined` is read.
unfoldable pub add_at :
    (bin_id x y : ℤ) → List RebalancePositionBinData → Result (List RebalancePositionBinData)
add_at bin_id x y [] = err type_error
add_at bin_id x y (b ∷ bins) =
    let rest = add_at bin_id x y bins in
    if eqb_ℤ b.bin_id bin_id
    then ok (record b { amount_x = b.amount_x +ℤ x; amount_y = b.amount_y +ℤ y } ∷ bins)
    else behind_bin b rest

-- The bins of the position and the totals so far.
pub record Deposited : Type 0 where
  pub bins : List RebalancePositionBinData
  pub total_amount_x_deposited : ℤ
  pub total_amount_y_deposited : ℤ

unfoldable pub deposit_amounts : DepositContext → List AmountIntoBin → Deposited → Result Deposited
deposit_amounts c [] d = ok d
deposit_amounts c (a ∷ amounts) d = (do
  into ← into_bin c a
  bins ← add_at a.bin_id into.0 into.1 d.bins
  deposit_amounts c amounts (record {
    bins = bins;
    total_amount_x_deposited = d.total_amount_x_deposited +ℤ a.amount_x;
    total_amount_y_deposited = d.total_amount_y_deposited +ℤ a.amount_y;
  }))
