-- ===== src/Examples/Fees.antt =====
-- helpers/fee.ts at concrete numbers.
use dlmm_sdk.Prelude.{◌+◌, ◌*◌, ◌≤◌, ◌≡◌, ◌↔◌, refl, arith, true, false, ok, some}
use dlmm_sdk.Constants.{basis_point_max, fee_precision}
use dlmm_sdk.Fee.{
  get_base_fee, get_total_fee, compute_fee, compute_fee_from_amount, compute_protocol_fee,
  QuoteAtBin, get_amount_in, get_out_amount, swap_exact_in_quote_at_bin,
  swap_exact_out_quote_at_bin,
}
use dlmm_sdk.Fee.Rate.{get_base_fee_of_computed_factor}
use dlmm_sdk.Fee.Amount.{compute_fee_from_amount-compute_fee}
use dlmm_sdk.Fee.Quote.{IsFairQuote, swap_exact_in-IsFairQuote}
use dlmm_sdk.Fee.Quote.Exchange.{
  get_amount_in_least, IsLeastQuote, swap_exact_out-IsLeastQuote, swap_exact_in-swap_exact_out,
}
use dlmm_sdk.Math.{shl_div, mul_shr}
use dlmm_sdk.Math.BaseFactor.{compute_base_factor_from_fee_bps}
use dlmm_sdk.Examples.Data.{bin, s, v}

-- A base fee of 0.1% and a variable fee.
total_fee_test : get_total_fee 10 s v ≡ 1016000
unfolding get_total_fee
total_fee_test = refl

abbrev out_quote : QuoteAtBin
out_quote = record { amount_in = 400; amount_out = 400; fee = 1; protocol_fee = 0 }

abbrev in_quote : QuoteAtBin
in_quote = record { amount_in = 401; amount_out = 400; fee = 1; protocol_fee = 0 }

exact_out_test : swap_exact_out_quote_at_bin bin 10 s v 400 true ≡ ok out_quote
unfolding swap_exact_out_quote_at_bin get_amount_in compute_fee compute_protocol_fee shl_div
    get_total_fee
exact_out_test = refl

exact_in_test : swap_exact_in_quote_at_bin bin 10 s v 401 true ≡ ok in_quote
unfolding swap_exact_in_quote_at_bin get_amount_in get_out_amount compute_fee
    compute_fee_from_amount compute_protocol_fee shl_div mul_shr get_total_fee
exact_in_test = refl

swap_exact_in-swap_exact_out_example : 400 ≤ 400
swap_exact_in-swap_exact_out_example =
    swap_exact_in-swap_exact_out bin 10 s v 400 true (omega arith) out_quote in_quote exact_out_test
      exact_in_test

swap_exact_in-IsFairQuote_example :
    (q : QuoteAtBin) × (swap_exact_in_quote_at_bin bin 10 s v 300 false ≡ ok q)
    × IsFairQuote bin false 300 q
swap_exact_in-IsFairQuote_example =
    swap_exact_in-IsFairQuote bin 10 s v 300 false (omega arith) (omega arith)

swap_exact_out-IsLeastQuote_example :
    (q : QuoteAtBin) × (swap_exact_out_quote_at_bin bin 10 s v 700 false ≡ ok q)
    × IsLeastQuote bin 10 s v false 700 q
swap_exact_out-IsLeastQuote_example = swap_exact_out-IsLeastQuote bin 10 s v 700 false (omega arith)

compute_fee_from_amount-compute_fee_example :
    compute_fee_from_amount 10 s v (12345 + compute_fee 10 s v 12345) ≡ compute_fee 10 s v 12345
compute_fee_from_amount-compute_fee_example = compute_fee_from_amount-compute_fee 10 s v 12345

amount_in_test : get_amount_in 400 bin.price true ≡ ok 400
unfolding get_amount_in shl_div
amount_in_test = refl

out_amount_test : get_out_amount bin 399 true ≡ ok 399
unfolding get_out_amount mul_shr
out_amount_test = refl

get_amount_in_least_example : (400 ≤ 399) ↔ (400 ≤ 399)
get_amount_in_least_example =
    get_amount_in_least bin 400 399 400 399 true (omega arith) amount_in_test out_amount_test

factor_test : compute_base_factor_from_fee_bps 10 10 ≡ some (ok (10000, 0))
unfolding compute_base_factor_from_fee_bps
factor_test = refl

get_base_fee_of_computed_factor_example : get_base_fee 10 s * basis_point_max ≡ 10 * fee_precision
get_base_fee_of_computed_factor_example =
    get_base_fee_of_computed_factor 10 10 10000 0 s (omega arith) factor_test refl refl
