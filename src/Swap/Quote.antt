-- ===== src/Swap/Quote.antt =====
-- index.ts, `swapQuote`: from the amount that the user pays to the amounts and the bin arrays of the
-- swap. What the code computes with decimals, `priceImpact` and `endPrice`, is left out.
pub mod Arrays
pub mod Ends
pub mod Output
pub mod Refusals
use dlmm_sdk.Prelude.{
  ℕ, ◌+◌, ◌-◌, Bool, true, false, ltb, not, ◌&&◌, ◌||◌, if◌then◌else◌, Option, none, some, List, [],
  Result, ok, err, insufficient_liquidity, invalid_max_extra_bin_arrays, Fueled,
}
use dlmm_sdk.Prelude.Int.{ℤ, pos, ◌+ℤ◌, ◌-ℤ◌, ◌*ℤ◌, tdiv, ltb_ℤ, leb_ℤ, pos_part}
use dlmm_sdk.Constants.{basis_point_max, max_extra_bin_arrays}
use dlmm_sdk.Pair.{Bin, BinArray, LbPair, BinArrayBitmapExtension}
use dlmm_sdk.Fee.{compute_fee_from_amount, get_out_amount}
use dlmm_sdk.Volatility.{update_reference}
use dlmm_sdk.Token.{
  TransferFee, TransferFeeAmount, calculate_transfer_fee_included_amount,
  calculate_transfer_fee_excluded_amount,
}
use dlmm_sdk.Swap.ExactIn.{Fill, fill_loop}
use dlmm_sdk.Swap.Extra.{ExtraArrays, extra_loop, save_extra}

-- The fields of the `DLMM` object that a quote reads. The transfer fees of the two mints are those at
-- the epoch of the clock.
pub record Dlmm : Type 0 where
  pub lb_pair : LbPair
  pub bin_array_bitmap_extension : Option BinArrayBitmapExtension
  pub token_x : Option TransferFee
  pub token_y : Option TransferFee

abbrev pub in_mint : Dlmm → Bool → Option TransferFee
in_mint dlmm swap_for_y = if swap_for_y then dlmm.token_x else dlmm.token_y

abbrev pub out_mint : Dlmm → Bool → Option TransferFee
out_mint dlmm swap_for_y = if swap_for_y then dlmm.token_y else dlmm.token_x

-- More than the bins between the ends of the bitmaps, which every loop goes over at most once.
abbrev pub loop_fuel : ℕ
loop_fuel = 931_900

-- What follows a loop.
abbrev pub after_loop {ℓ κ} : {S : Type ℓ} {T : Type κ} → Fueled S → (S → Fueled T) → Fueled T
after_loop none next = none
after_loop (some (err e)) next = some (err e)
after_loop (some (ok f)) next = next f

unfoldable pub is_max_extra_valid : ℤ → Bool
is_max_extra_valid max_extra =
    not (ltb_ℤ max_extra (pos 0) || ltb_ℤ (pos max_extra_bin_arrays) max_extra)

-- The arrays of the swap and the extra ones, from the active bin that the swap ends at.
unfoldable pub with_extra :
    (swap_for_y : Bool)
    → (max_extra : ℤ) → LbPair
    → Option BinArrayBitmapExtension
    → List BinArray
    → (active_id : ℤ) → (used : List ℤ) → Fueled (List ℤ)
with_extra swap_for_y max_extra pair extension arrays active_id used =
    if ltb_ℤ (pos 0) max_extra && leb_ℤ max_extra (pos max_extra_bin_arrays)
    then after_loop
        (extra_loop loop_fuel swap_for_y (pos_part max_extra) used pair extension arrays
          (record { active_id = active_id; extra_bin_arrays = [] }))
        (λ f. some (ok (save_extra used f.extra_bin_arrays)))
    else some (ok used)

pub record SwapQuote : Type 0 where
  pub consumed_in_amount : ℕ
  pub out_amount : ℕ
  pub fee : ℕ
  pub protocol_fee : ℕ
  pub min_out_amount : ℤ
  pub bin_arrays_pubkey : List ℤ

unfoldable pub start_fill : Dlmm → (now_ms : ℤ) → (in_amount_left : ℕ) → Fill
start_fill dlmm now_ms in_amount_left =
    let pair = dlmm.lb_pair in
    record {
      in_amount_left = in_amount_left;
      total_out_amount = 0;
      fee_amount = 0;
      protocol_fee_amount = 0;
      active_id = pair.active_id;
      v_parameters = update_reference pair.active_id pair.v_parameters pair.parameters now_ms;
      start_bin = none;
      last_filled_active_bin_id = pair.active_id;
      bin_arrays_for_swap = [];
    }

unfoldable pub min_out_of : (out_amount : ℕ) → (allowed_slippage : ℤ) → ℤ
min_out_of out_amount allowed_slippage =
    tdiv (pos out_amount *ℤ (pos basis_point_max -ℤ allowed_slippage)) basis_point_max

module _ (calculate_fee : TransferFee → ℕ → ℕ) where
  -- What the user pays for the amount that the swap takes: at most the amount offered.
  unfoldable pub consumed_of : Option TransferFee → (in_amount actual_in_amount : ℕ) → ℕ
  consumed_of mint in_amount actual_in_amount =
      let included = calculate_transfer_fee_included_amount calculate_fee mint actual_in_amount in
      if ltb in_amount included.amount then in_amount else included.amount

  -- From the end of the loop on, with the first bin that was filled. The amount at that bin's price is
  -- for the price impact only; the call may throw.
  unfoldable pub quote_from :
      Dlmm
      → (swap_for_y : Bool) → (allowed_slippage : ℤ) → List BinArray
      → (max_extra : ℤ) → (in_amount excluded_in_amount : ℕ) → Fill
      → Bin
      → Fueled SwapQuote
  quote_from dlmm swap_for_y allowed_slippage arrays max_extra in_amount excluded_in_amount f
        start =
      let pair = dlmm.lb_pair in
      let actual_in_amount = excluded_in_amount - f.in_amount_left in
      let fee =
        compute_fee_from_amount pair.bin_step pair.parameters f.v_parameters actual_in_amount in
      let out =
        calculate_transfer_fee_excluded_amount calculate_fee (out_mint dlmm swap_for_y)
          f.total_out_amount in
      after_loop (some (get_out_amount start (actual_in_amount - fee) swap_for_y)) (λ _.
        after_loop
          (with_extra swap_for_y max_extra pair dlmm.bin_array_bitmap_extension arrays f.active_id
            f.bin_arrays_for_swap)
          (λ keys. some (
            ok (record {
              consumed_in_amount = consumed_of (in_mint dlmm swap_for_y) in_amount actual_in_amount;
              out_amount = out.amount;
              fee = f.fee_amount;
              protocol_fee = f.protocol_fee_amount;
              min_out_amount = min_out_of out.amount allowed_slippage;
              bin_arrays_pubkey = keys;
            }))))

  abbrev pub if_started : Option Bin → (Bin → Fueled SwapQuote) → Fueled SwapQuote
  if_started none quote = some (err insufficient_liquidity)
  if_started (some bin) quote = quote bin

  unfoldable pub swap_quote :
      Dlmm
      → (now_ms : ℤ) → (in_amount : ℕ) → (swap_for_y : Bool) → (allowed_slippage : ℤ)
      → List BinArray
      → (is_partial_fill : Bool) → (max_extra : ℤ) → Fueled SwapQuote
  swap_quote dlmm now_ms in_amount swap_for_y allowed_slippage arrays is_partial_fill max_extra =
      let excluded =
        calculate_transfer_fee_excluded_amount calculate_fee (in_mint dlmm swap_for_y) in_amount in
      if is_max_extra_valid max_extra
      then after_loop
          (fill_loop loop_fuel swap_for_y is_partial_fill dlmm.lb_pair
            dlmm.bin_array_bitmap_extension arrays (start_fill dlmm now_ms excluded.amount))
          (λ f. if_started f.start_bin (
            quote_from dlmm swap_for_y allowed_slippage arrays max_extra in_amount excluded.amount
              f))
      else some (err invalid_max_extra_bin_arrays)
