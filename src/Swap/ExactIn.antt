-- ===== src/Swap/ExactIn.antt =====
-- index.ts, the loop of `swapQuote`: bin by bin from the active bin, until the amount is used up or
-- there is no further bin array.
pub mod Totals
pub mod Loop
use dlmm_sdk.Prelude.{
  ℕ, ◌+◌, ◌-◌, Bool, true, false, ◌==◌, if◌then◌else◌, Option, none, some, List, Result, ok, err,
  ◌>>=◌, from_option, type_error, insufficient_liquidity, Fueled,
}
use dlmm_sdk.Prelude.Int.{ℤ}
use dlmm_sdk.Pair.{Bin, BinArray, LbPair, BinArrayBitmapExtension, VParameters}
use dlmm_sdk.Fee.{QuoteAtBin, swap_exact_in_quote_at_bin}
use dlmm_sdk.Volatility.{update_volatility_accumulator}
use dlmm_sdk.BinArray.{is_bin_id_within_bin_array, get_bin_from_bin_array}
use dlmm_sdk.Swap.{next_bin, set_key, Walker, walk}

-- The local variables of the loop.
pub record Fill : Type 0 where
  pub in_amount_left : ℕ
  pub total_out_amount : ℕ
  pub fee_amount : ℕ
  pub protocol_fee_amount : ℕ
  pub active_id : ℤ
  pub v_parameters : VParameters
  pub start_bin : Option Bin
  pub last_filled_active_bin_id : ℤ
  pub bin_arrays_for_swap : List ℤ

abbrev pub first_of {ℓ} : {A : Type ℓ} → Option A → A → Option A
first_of none a = some a
first_of (some b) a = some b

-- The totals after the quote of a bin. The quote takes no more than what is left, so that the
-- subtraction does not stop at 0. The protocol's fee is the sum of the last one with itself.
unfoldable pub add_quote : Fill → Bin → QuoteAtBin → Fill
add_quote f bin q = if q.amount_in == 0 then f else record f {
  in_amount_left = f.in_amount_left - q.amount_in;
  total_out_amount = f.total_out_amount + q.amount_out;
  fee_amount = f.fee_amount + q.fee;
  protocol_fee_amount = q.protocol_fee + q.protocol_fee;
  start_bin = first_of f.start_bin bin;
  last_filled_active_bin_id = f.active_id;
}

-- The last statement of a round: the next bin, if something is left.
unfoldable pub advance : Bool → Fill → Fill
advance swap_for_y f =
    if f.in_amount_left == 0 then f else record f { active_id = next_bin swap_for_y f.active_id }

-- The array is noted and the volatility follows the active bin.
unfoldable pub visit : LbPair → BinArray → Fill → Fill
visit pair arr f = record f {
  v_parameters = update_volatility_accumulator f.v_parameters pair.parameters f.active_id;
  bin_arrays_for_swap = set_key f.bin_arrays_for_swap arr.index;
}

-- A round, from the array that the search returned.
unfoldable pub swap_round : Bool → LbPair → BinArray → Fill → Result Fill
swap_round swap_for_y pair arr f =
    let g = visit pair arr f in
    if is_bin_id_within_bin_array g.active_id arr.index
    then (do
      bin ← from_option type_error (get_bin_from_bin_array g.active_id arr)
      q ←
          swap_exact_in_quote_at_bin bin pair.bin_step pair.parameters g.v_parameters
            g.in_amount_left swap_for_y
      ok (advance swap_for_y (add_quote g bin q)))
    else ok (advance swap_for_y g)

-- The loop breaks or throws where there is no array.
unfoldable pub filler : (swap_for_y is_partial_fill : Bool) → LbPair → Walker Fill
filler swap_for_y is_partial_fill pair = record {
  left = λ f. f.in_amount_left;
  active_id = λ f. f.active_id;
  round = swap_round swap_for_y pair;
  stop = λ f. if is_partial_fill then ok f else err insufficient_liquidity;
}

-- The loop `while (!inAmountLeft.isZero())`, on fuel.
unfoldable pub fill_loop :
    ℕ
    → (swap_for_y is_partial_fill : Bool) → LbPair
    → Option BinArrayBitmapExtension
    → List BinArray
    → Fill
    → Fueled Fill
fill_loop fuel swap_for_y is_partial_fill pair =
    walk (filler swap_for_y is_partial_fill pair) fuel swap_for_y pair
