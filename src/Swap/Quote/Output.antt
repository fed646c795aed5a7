-- ===== src/Swap/Quote/Output.antt =====
-- index.ts, `swapQuoteExactOut`: from the amount that the user gets to the amount to pay and the bin
-- arrays of the swap. `priceImpact`, which the code computes with decimals, is left out.
pub mod Ends
use dlmm_sdk.Prelude.{
  ℕ, ◌+◌, Bool, if◌then◌else◌, some, List, [], ok, err, invalid_max_extra_bin_arrays, Fueled,
}
use dlmm_sdk.Prelude.Int.{ℤ, pos, ◌+ℤ◌, ◌*ℤ◌, tdiv}
use dlmm_sdk.Constants.{basis_point_max}
use dlmm_sdk.Pair.{BinArray}
use dlmm_sdk.Volatility.{update_reference}
use dlmm_sdk.Token.{TransferFee, TransferFeeAmount, calculate_transfer_fee_included_amount}
use dlmm_sdk.Swap.ExactOut.{FillOut, give_loop}
use dlmm_sdk.Swap.Quote.{
  Dlmm, in_mint, out_mint, loop_fuel, after_loop, is_max_extra_valid, with_extra,
}

pub record SwapQuoteExactOut : Type 0 where
  pub in_amount : ℕ
  pub max_in_amount : ℤ
  pub out_amount : ℕ
  pub fee : ℕ
  pub protocol_fee : ℕ
  pub bin_arrays_pubkey : List ℤ

unfoldable pub start_fill_out : Dlmm → (now_ms : ℤ) → (out_amount_left : ℕ) → FillOut
start_fill_out dlmm now_ms out_amount_left =
    let pair = dlmm.lb_pair in
    record {
      out_amount_left = out_amount_left;
      actual_in_amount = 0;
      fee_amount = 0;
      protocol_fee_amount = 0;
      active_id = pair.active_id;
      v_parameters = update_reference pair.active_id pair.v_parameters pair.parameters now_ms;
      bin_arrays_for_swap = [];
    }

unfoldable pub max_in_of : (in_amount : ℕ) → (allowed_slippage : ℤ) → ℤ
max_in_of in_amount allowed_slippage =
    tdiv (pos in_amount *ℤ (pos basis_point_max +ℤ allowed_slippage)) basis_point_max

module _ (calculate_fee : TransferFee → ℕ → ℕ) where
  -- From the end of the loop on.
  unfoldable pub quote_out_from :
      Dlmm
      → (swap_for_y : Bool) → (allowed_slippage : ℤ) → List BinArray
      → (max_extra : ℤ) → (out_amount : ℕ) → FillOut
      → Fueled SwapQuoteExactOut
  quote_out_from dlmm swap_for_y allowed_slippage arrays max_extra out_amount f =
      let paid =
        calculate_transfer_fee_included_amount calculate_fee (in_mint dlmm swap_for_y)
          (f.actual_in_amount + f.fee_amount) in
      after_loop
        (with_extra swap_for_y max_extra dlmm.lb_pair dlmm.bin_array_bitmap_extension arrays
          f.active_id f.bin_arrays_for_swap)
        (λ keys. some (
          ok (record {
            in_amount = paid.amount;
            max_in_amount = max_in_of paid.amount allowed_slippage;
            out_amount = out_amount;
            fee = f.fee_amount;
            protocol_fee = f.protocol_fee_amount;
            bin_arrays_pubkey = keys;
          })))

  unfoldable pub swap_quote_exact_out :
      Dlmm
      → (now_ms : ℤ) → (out_amount : ℕ) → (swap_for_y : Bool) → (allowed_slippage : ℤ)
      → List BinArray
      → (max_extra : ℤ) → Fueled SwapQuoteExactOut
  swap_quote_exact_out dlmm now_ms out_amount swap_for_y allowed_slippage arrays max_extra =
      let included =
        calculate_transfer_fee_included_amount calculate_fee (out_mint dlmm swap_for_y)
          out_amount in
      if is_max_extra_valid max_extra
      then after_loop
          (give_loop loop_fuel swap_for_y dlmm.lb_pair dlmm.bin_array_bitmap_extension arrays
            (start_fill_out dlmm now_ms included.amount))
          (quote_out_from dlmm swap_for_y allowed_slippage arrays max_extra out_amount)
      else some (err invalid_max_extra_bin_arrays)
