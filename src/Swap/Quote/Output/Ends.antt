-- ===== src/Swap/Quote/Output/Ends.antt =====
-- index.ts, `swapQuoteExactOut` from its arguments to its outcome.
use dlmm_sdk.Prelude.{
  ℕ, ◌+◌, ◌≤◌, ◌≡◌, inl, inr, refl, ap, arith, Bool, true, Option, some, List, All, sum_of, Result,
  ok, err, insufficient_liquidity,
}
use dlmm_sdk.Prelude.Int.{ℤ}
use dlmm_sdk.Pair.{BinArray, BinArrayBitmapExtension, LbPair}
use dlmm_sdk.Token.{TransferFee, calculate_transfer_fee_included_amount}
use dlmm_sdk.Fee.{QuoteAtBin}
use dlmm_sdk.Swap.ExactOut.{FillOut}
use dlmm_sdk.Swap.ExactOut.Loop.{IsBinQuote, IsGiven, give_loop_ends}
use dlmm_sdk.Swap.Market.{IsMarket, IsInBitmaps}
use dlmm_sdk.Swap.Quote.Arrays.{enough_fuel, with_extra-IsExtended}
use dlmm_sdk.Swap.Quote.Ends.{included-ge}
use dlmm_sdk.Swap.Quote.{Dlmm, in_mint, out_mint, loop_fuel, is_max_extra_valid}
use dlmm_sdk.Swap.Quote.Output.{
  SwapQuoteExactOut, max_in_of, start_fill_out, quote_out_from, swap_quote_exact_out,
}

-- A quote for an exact output: the quotes of bins, each for the least input, give what the output and
-- the transfer fee on it come to, `needed`; their fees are the fee of the quote, and their inputs with
-- these fees, and with the transfer fee on them, are what is to be paid.
pub record IsExactQuote (pair : LbPair) (y : Bool) (pay_of : ℕ → ℕ) (slippage : ℤ)
    (out_amount needed : ℕ) (q : SwapQuoteExactOut) : Type 0 where
  pub asked : q.out_amount ≡ out_amount
  pub quotes : List QuoteAtBin
  pub each : All (IsBinQuote pair y) quotes
  pub given : sum_of (λ b. b.amount_out) quotes ≡ needed
  pub charged : q.fee ≡ sum_of (λ b. b.fee) quotes
  pub paid : q.in_amount ≡ pay_of (sum_of (λ b. b.amount_in) quotes + q.fee)
  pub fee_part : q.fee ≤ q.in_amount
  pub most : q.max_in_amount ≡ max_in_of q.in_amount slippage

-- How a quote for an exact output ends: with such a quote, or with the error for insufficient
-- liquidity.
unfoldable pub IsOutputOutcome :
    LbPair → Bool → (ℕ → ℕ) → ℤ → (out_amount needed : ℕ) → Result SwapQuoteExactOut → Type 0
IsOutputOutcome pair y pay_of slippage out_amount needed (ok q) =
    IsExactQuote pair y pay_of slippage out_amount needed q
IsOutputOutcome pair y pay_of slippage out_amount needed (err e) = e ≡ insufficient_liquidity

module _ (calculate_fee : TransferFee → ℕ → ℕ) (pair : LbPair) (extension : BinArrayBitmapExtension)
    (arrays : List BinArray) (m : IsMarket pair extension arrays)
    (mint_x mint_y : Option TransferFee) (now_ms : ℤ) (out_amount : ℕ) (y : Bool) (slippage : ℤ)
    (max_extra : ℤ) where
  abbrev dlmm : Dlmm
  dlmm = record {
    lb_pair = pair;
    bin_array_bitmap_extension = some extension;
    token_x = mint_x;
    token_y = mint_y;
  }

  -- An amount with the transfer fee of the mint that is paid in, and of the one that is paid out.
  abbrev pay_of : ℕ → ℕ
  pay_of amount =
      (calculate_transfer_fee_included_amount calculate_fee (in_mint dlmm y) amount).amount

  abbrev needed : ℕ
  needed =
      (calculate_transfer_fee_included_amount calculate_fee (out_mint dlmm y) out_amount).amount

  given_ends :
      (f : FillOut)
      → f.out_amount_left ≡ 0
      → IsGiven pair y (start_fill_out dlmm now_ms needed) f
      → IsInBitmaps f.active_id
      → (r : Result SwapQuoteExactOut) × (quote_out_from calculate_fee dlmm y slippage arrays
            max_extra out_amount f
          ≡ some r)
        × IsOutputOutcome pair y pay_of slippage out_amount needed r
  unfolding quote_out_from IsOutputOutcome start_fill_out
  given_ends f used given inside =
      let (keys, run, _) =
        with_extra-IsExtended pair extension arrays m y max_extra f.active_id f.bin_arrays_for_swap
          inside in
      let paid =
        calculate_transfer_fee_included_amount calculate_fee (in_mint dlmm y)
          (f.actual_in_amount + f.fee_amount) in
      let more = included-ge calculate_fee (in_mint dlmm y) (f.actual_in_amount + f.fee_amount) in
      let q : SwapQuoteExactOut = record {
        in_amount = paid.amount;
        max_in_amount = max_in_of paid.amount slippage;
        out_amount = out_amount;
        fee = f.fee_amount;
        protocol_fee = f.protocol_fee_amount;
        bin_arrays_pubkey = keys;
      } in
      let sum = given.given in
      let paid_in = given.paid in
      let charged = given.charged in
      (
        ok q,
        rw run,
        record {
          asked = refl;
          quotes = given.quotes;
          each = given.each;
          given = omega (arith, sum, used);
          charged = omega (arith, charged);
          paid = ap pay_of (omega (arith, paid_in));
          fee_part = omega (arith, more);
          most = refl;
        },
      )

  -- With the accounts of a pair in shape and an active bin within the bitmaps, `swapQuoteExactOut`
  -- ends whatever its other arguments are, with at most three extra arrays asked for. It throws the
  -- error for insufficient liquidity, or it returns a quote of the output asked for, for which quotes
  -- of bins, each for the least input, add up to exactly that output with its transfer fee: the fee is
  -- the sum of their fees, and the input the sum of their inputs and fees, with its transfer fee, and
  -- at least the fee.
  pub swap_quote_exact_out-IsOutputOutcome :
      IsInBitmaps pair.active_id
      → is_max_extra_valid max_extra ≡ true
      → (r : Result SwapQuoteExactOut) × (swap_quote_exact_out calculate_fee dlmm now_ms out_amount
            y slippage arrays max_extra
          ≡ some r)
        × IsOutputOutcome pair y pay_of slippage out_amount needed r
  unfolding swap_quote_exact_out start_fill_out IsOutputOutcome
  swap_quote_exact_out-IsOutputOutcome inside valid =
      let left =
        calculate_transfer_fee_included_amount calculate_fee (out_mint dlmm y) out_amount in
      let start = start_fill_out dlmm now_ms left.amount in
      elim (give_loop_ends pair extension arrays m y loop_fuel start inside
        (enough_fuel y pair.active_id inside)) [
          | inl (g, run, used, given, still) ↦
              let (r, quoted, is) = given_ends g used given still in (r, rw (valid, run) quoted, is)
          | inr run ↦ (err insufficient_liquidity, rw (valid, run), refl)
        ]
