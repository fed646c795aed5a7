-- ===== src/Swap/ExactOut.antt =====
-- index.ts, the loop of `swapQuoteExactOut`: bin by bin from the active bin, until the amount asked
-- for is given.
pub mod Loop
use dlmm_sdk.Prelude.{
  ℕ, ◌+◌, ◌-◌, Bool, true, false, ◌==◌, if◌then◌else◌, Option, some, List, Result, ok, err, ◌>>=◌,
  from_option, type_error, insufficient_liquidity, Fueled,
}
use dlmm_sdk.Prelude.Int.{ℤ}
use dlmm_sdk.Pair.{BinArray, LbPair, BinArrayBitmapExtension, VParameters}
use dlmm_sdk.Fee.{QuoteAtBin, swap_exact_out_quote_at_bin}
use dlmm_sdk.Volatility.{update_volatility_accumulator}
use dlmm_sdk.BinArray.{is_bin_id_within_bin_array, get_bin_from_bin_array}
use dlmm_sdk.Swap.{next_bin, set_key, Walker, walk}

-- The local variables of the loop.
pub record FillOut : Type 0 where
  pub out_amount_left : ℕ
  pub actual_in_amount : ℕ
  pub fee_amount : ℕ
  pub protocol_fee_amount : ℕ
  pub active_id : ℤ
  pub v_parameters : VParameters
  pub bin_arrays_for_swap : List ℤ

-- The totals after the quote of a bin. The quote gives no more than what is left, so that the
-- subtraction does not stop at 0. The protocol's fee is the sum of the last one with itself.
unfoldable pub add_quote_out : FillOut → QuoteAtBin → FillOut
add_quote_out f q = if q.amount_out == 0 then f else record f {
  out_amount_left = f.out_amount_left - q.amount_out;
  actual_in_amount = f.actual_in_amount + q.amount_in;
  fee_amount = f.fee_amount + q.fee;
  protocol_fee_amount = q.protocol_fee + q.protocol_fee;
}

unfoldable pub advance_out : Bool → FillOut → FillOut
advance_out swap_for_y f =
    if f.out_amount_left == 0 then f else record f { active_id = next_bin swap_for_y f.active_id }

-- The array is noted and the volatility follows the active bin.
unfoldable pub visit_out : LbPair → BinArray → FillOut → FillOut
visit_out pair arr f = record f {
  v_parameters = update_volatility_accumulator f.v_parameters pair.parameters f.active_id;
  bin_arrays_for_swap = set_key f.bin_arrays_for_swap arr.index;
}

-- A round, from the array that the search returned.
unfoldable pub swap_out_round : Bool → LbPair → BinArray → FillOut → Result FillOut
swap_out_round swap_for_y pair arr f =
    let g = visit_out pair arr f in
    if is_bin_id_within_bin_array g.active_id arr.index
    then (do
      bin ← from_option type_error (get_bin_from_bin_array g.active_id arr)
      q ←
          swap_exact_out_quote_at_bin bin pair.bin_step pair.parameters g.v_parameters
            g.out_amount_left swap_for_y
      ok (advance_out swap_for_y (add_quote_out g q)))
    else ok (advance_out swap_for_y g)

-- The loop throws where there is no array.
unfoldable pub giver : Bool → LbPair → Walker FillOut
giver swap_for_y pair = record {
  left = λ f. f.out_amount_left;
  active_id = λ f. f.active_id;
  round = swap_out_round swap_for_y pair;
  stop = λ f. err insufficient_liquidity;
}

-- The loop `while (!outAmountLeft.isZero())`, on fuel.
unfoldable pub give_loop :
    ℕ → Bool → LbPair → Option BinArrayBitmapExtension → List BinArray → FillOut → Fueled FillOut
give_loop fuel swap_for_y pair = walk (giver swap_for_y pair) fuel swap_for_y pair
