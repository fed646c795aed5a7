-- ===== src/Rebalance/Amounts.antt =====
-- rebalancePosition.ts, `toAmountIntoBins`: the amounts of a deposit, bin by bin. On the bid side Y
-- goes up by a step with the distance from the active bin; on the ask side so does X, at the price of
-- the bin. And `buildBitFlagAndNegateStrategyParameters`, the signs of the parameters.
pub mod Asks
pub mod Bins
pub mod Sides
pub mod Signs
use dlmm_sdk.Prelude.{
  ℕ, zero, suc, ◌+◌, ◌*◌, ◌/◌, ◌^◌, Bool, true, false, if◌then◌else◌, List, [], ◌∷◌, ◌++◌, Result,
  ok, err, ◌>>=◌, assertion_failed, range_error,
}
use dlmm_sdk.Prelude.Int.{
  ℤ, pos, negsuc, neg_ℤ, ◌+ℤ◌, ◌-ℤ◌, ◌*ℤ◌, nat_abs, is_neg, ltb_ℤ, leb_ℤ, tdiv,
}
use dlmm_sdk.Constants.{scale_offset}
use dlmm_sdk.Math.{get_q_price_base_factor}
use dlmm_sdk.Math.Power.{pow}
use dlmm_sdk.Positions.{ids_from_to}

pub record AmountIntoBin : Type 0 where
  pub bin_id : ℤ
  pub amount_x : ℤ
  pub amount_y : ℤ

unfoldable pub only_deposit_to_bid_side : ℤ → Bool → Bool
only_deposit_to_bid_side max_delta_id favor_x_in_active_bin =
    if favor_x_in_active_bin then ltb_ℤ max_delta_id (pos 0) else leb_ℤ max_delta_id (pos 0)

unfoldable pub only_deposit_to_ask_side : ℤ → Bool → Bool
only_deposit_to_ask_side min_delta_id favor_x_in_active_bin =
    if favor_x_in_active_bin then leb_ℤ (pos 0) min_delta_id else ltb_ℤ (pos 0) min_delta_id

-- The loop up from a bin, by the rounds left.
unfoldable pub bid_loop : ℕ → (active_id delta_y y0 bin_id : ℤ) → List AmountIntoBin
bid_loop zero active_id delta_y y0 bin_id = []
bid_loop (suc rounds) active_id delta_y y0 bin_id =
    record { bin_id = bin_id; amount_x = pos 0; amount_y = y0 +ℤ delta_y *ℤ (active_id -ℤ bin_id) }
    ∷ bid_loop rounds active_id delta_y y0 (bin_id +ℤ pos 1)

unfoldable pub get_amount_in_bins_bid_side :
    (active_id min_delta_id max_delta_id delta_y y0 : ℤ) → List AmountIntoBin
get_amount_in_bins_bid_side active_id min_delta_id max_delta_id delta_y y0 =
    let min_bin_id = active_id +ℤ min_delta_id in
    bid_loop (ids_from_to min_bin_id (active_id +ℤ max_delta_id)) active_id delta_y y0 min_bin_id

-- `shrn` of BN asserts that the number is not negative.
abbrev pub shrn : ℤ → Result ℤ
shrn a = if is_neg a then err assertion_failed else ok (tdiv a (2 ^ scale_offset))

-- The loop down from a bin, by the rounds left. The entries are written at their distance from the
-- first bin, so that the last round writes the first entry: what was written before comes after.
unfoldable pub ask_loop :
    ℕ
    → (base : ℕ) → (active_id delta_x x0 bin_id : ℤ) → (inverse_base_price : ℕ) → List AmountIntoBin
    → Result (List AmountIntoBin)
ask_loop zero base active_id delta_x x0 bin_id inverse_base_price written = ok written
ask_loop (suc rounds) base active_id delta_x x0 bin_id inverse_base_price written = do
  amount_x ← shrn ((x0 +ℤ delta_x *ℤ (bin_id -ℤ active_id)) *ℤ pos inverse_base_price)
  let entry : AmountIntoBin = record { bin_id = bin_id; amount_x = amount_x; amount_y = pos 0 }
  ask_loop rounds base active_id delta_x x0 (bin_id -ℤ pos 1)
      (inverse_base_price * base / 2 ^ scale_offset) (entry ∷ written)

-- The array of the amounts is made first, and a negative length throws.
unfoldable pub get_amount_in_bins_ask_side :
    (active_id : ℤ)
    → (bin_step : ℕ) → (min_delta_id max_delta_id delta_x x0 : ℤ) → Result (List AmountIntoBin)
get_amount_in_bins_ask_side active_id bin_step min_delta_id max_delta_id delta_x x0 =
    let bin_count = max_delta_id -ℤ min_delta_id +ℤ pos 1 in
    let max_bin_id = active_id +ℤ max_delta_id in
    let base = get_q_price_base_factor bin_step in
    if is_neg bin_count
    then err range_error
    else ask_loop (ids_from_to (active_id +ℤ min_delta_id) max_bin_id) base active_id delta_x x0
        max_bin_id (pow base (neg_ℤ max_bin_id)) []

unfoldable pub to_amount_into_bins :
    (active_id min_delta_id max_delta_id delta_x delta_y x0 y0 : ℤ)
    → (bin_step : ℕ) → (favor_x_in_active_bin : Bool) → Result (List AmountIntoBin)
to_amount_into_bins active_id min_delta_id max_delta_id delta_x delta_y x0 y0 bin_step favor =
    if only_deposit_to_bid_side max_delta_id favor
    then ok (get_amount_in_bins_bid_side active_id min_delta_id max_delta_id delta_y y0)
    else if only_deposit_to_ask_side min_delta_id favor
    then get_amount_in_bins_ask_side active_id bin_step min_delta_id max_delta_id delta_x x0
    else (do
      let bids =
          get_amount_in_bins_bid_side active_id min_delta_id (if favor then negsuc 0 else pos 0)
            delta_y y0
      asks ←
          get_amount_in_bins_ask_side active_id bin_step (if favor then pos 0 else pos 1)
            max_delta_id delta_x x0
      ok (bids ++ asks))

pub record StrategyParameters : Type 0 where
  pub bit_flag : ℕ
  pub x0 : ℕ
  pub y0 : ℕ
  pub delta_x : ℕ
  pub delta_y : ℕ

-- The bits of the flag are set one by one, each of them once, so that `|=` adds its weight.
abbrev pub sign_bit : ℤ → ℕ → ℕ
sign_bit a weight = if is_neg a then weight else 0

unfoldable pub build_bit_flag_and_negate_strategy_parameters :
    (x0 y0 delta_x delta_y : ℤ) → StrategyParameters
build_bit_flag_and_negate_strategy_parameters x0 y0 delta_x delta_y = record {
  bit_flag = sign_bit x0 1 + sign_bit y0 2 + sign_bit delta_x 4 + sign_bit delta_y 8;
  x0 = nat_abs x0;
  y0 = nat_abs y0;
  delta_x = nat_abs delta_x;
  delta_y = nat_abs delta_y;
}
