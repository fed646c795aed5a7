-- ===== src/Examples/Quotes.antt =====
-- `swapQuote` and `swapQuoteExactOut` at concrete data.
use dlmm_sdk.Prelude.{
  ℕ, ◌≡◌, ◌≤◌, ◌<◌, ◌*◌, ◌+◌, ◌-◌, refl, arith, true, false, some, none, Result, [], ◌∷◌,
}
use dlmm_sdk.Prelude.Int.{pos}
use dlmm_sdk.Token.{TransferFee, calculate_transfer_fee_included_amount}
use dlmm_sdk.Token.RoundTrip.{program_fee}
use dlmm_sdk.Swap.Quote.{Dlmm, SwapQuote, is_max_extra_valid, min_out_of, swap_quote}
use dlmm_sdk.Swap.Quote.Output.{SwapQuoteExactOut, max_in_of, swap_quote_exact_out}
use dlmm_sdk.Swap.Quote.Ends.{IsOutcome, swap_quote-IsOutcome}
use dlmm_sdk.Swap.Quote.Output.Ends.{IsOutputOutcome, swap_quote_exact_out-IsOutputOutcome}
use dlmm_sdk.Swap.Quote.Refusals.{slippage_bounds}
use dlmm_sdk.Examples.Data.{array, pair, extension}
use dlmm_sdk.Examples.Swaps.{pair-IsMarket}

abbrev taxed : TransferFee
taxed = record { transfer_fee_basis_points = 100; maximum_fee = 5000 }

abbrev dlmm : Dlmm
dlmm = record {
  lb_pair = pair;
  bin_array_bitmap_extension = some extension;
  token_x = some taxed;
  token_y = none;
}

swap_quote-IsOutcome_example :
    (r : Result SwapQuote) × (swap_quote program_fee dlmm
        (pos 1100000)
        1200
        true
        (pos 50)
        (array ∷ [])
        false
        (pos 2)
      ≡ some r)
    × IsOutcome program_fee (some taxed) 1200 false r
unfolding is_max_extra_valid
swap_quote-IsOutcome_example =
    swap_quote-IsOutcome program_fee pair extension (array ∷ []) pair-IsMarket (some taxed) none
      (pos 1100000) 1200 true (pos 50) false (pos 2) (omega arith) refl

swap_quote_exact_out-IsOutputOutcome_example :
    (r : Result SwapQuoteExactOut) × (swap_quote_exact_out program_fee dlmm
        (pos 1100000)
        700
        true
        (pos 50)
        (array ∷ [])
        (pos 2)
      ≡ some r)
    × IsOutputOutcome pair true
        (λ amount. (calculate_transfer_fee_included_amount program_fee (some taxed) amount).amount)
        (pos 50)
        700
        700
        r
unfolding is_max_extra_valid calculate_transfer_fee_included_amount
swap_quote_exact_out-IsOutputOutcome_example =
    swap_quote_exact_out-IsOutputOutcome program_fee pair extension (array ∷ []) pair-IsMarket
      (some taxed) none (pos 1100000) 700 true (pos 50) (pos 2) (omega arith) refl

slippage_bounds_example :
    ((least : ℕ) × (min_out_of 777 (pos 50) ≡ pos least)
      × (least * 10000 ≤ 777 * (10000 - 50))
      × (777 * (10000 - 50) < least * 10000 + 10000)
      × (least ≤ 777))
    × ((most : ℕ) × (max_in_of 777 (pos 50) ≡ pos most)
        × (most * 10000 ≤ 777 * (10000 + 50))
        × (777 * (10000 + 50) < most * 10000 + 10000)
        × (777 ≤ most))
slippage_bounds_example = slippage_bounds 777 50 (omega arith)
