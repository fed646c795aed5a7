-- ===== src/Fee.antt =====
-- ts-client/src/dlmm/helpers/fee.ts and `getOutAmount` of helpers/index.ts: fee rates in parts of
-- `FEE_PRECISION`, fees on amounts, and the quote of a swap within one bin.
pub mod Rate
pub mod Amount
pub mod Quote
use dlmm_sdk.Prelude.{
  ℕ, ◌+◌, ◌-◌, ◌*◌, ◌/◌, ◌^◌, Bool, true, false, ltb, leb, ◌==◌, ◌&&◌, not, if◌then◌else◌, Result,
  ok, err, ◌>>=◌,
}
use dlmm_sdk.Constants.{basis_point_max, scale_offset, fee_precision, max_fee_rate}
use dlmm_sdk.Math.{up, down, mul_shr, shl_div}
use dlmm_sdk.Pair.{Bin, SParameters, VParameters}

unfoldable pub get_base_fee : ℕ → SParameters → ℕ
get_base_fee bin_step s = s.base_factor * bin_step * 10 * 10 ^ s.base_fee_power_factor

unfoldable pub get_variable_fee : ℕ → SParameters → VParameters → ℕ
get_variable_fee bin_step s v =
    if ltb 0 s.variable_fee_control
    then (let square_vfa_bin = (v.volatility_accumulator * bin_step) ^ 2 in
        (s.variable_fee_control * square_vfa_bin + 99_999_999_999) / 100_000_000_000)
    else 0

unfoldable pub get_total_fee : ℕ → SParameters → VParameters → ℕ
unfolding get_base_fee get_variable_fee
get_total_fee bin_step s v =
    let total_fee = get_base_fee bin_step s + get_variable_fee bin_step s v in
    if ltb max_fee_rate total_fee then max_fee_rate else total_fee

-- The denominator is positive, since the rate is capped, so that the subtractions do not stop at 0.
unfoldable pub compute_fee : ℕ → SParameters → VParameters → ℕ → ℕ
compute_fee bin_step s v in_amount =
    let total_fee = get_total_fee bin_step s v in
    let denominator = fee_precision - total_fee in
    (in_amount * total_fee + denominator - 1) / denominator

unfoldable pub compute_fee_from_amount : ℕ → SParameters → VParameters → ℕ → ℕ
compute_fee_from_amount bin_step s v in_amount_with_fees =
    (in_amount_with_fees * get_total_fee bin_step s v + (fee_precision - 1)) / fee_precision

unfoldable pub compute_protocol_fee : ℕ → SParameters → ℕ
compute_protocol_fee fee_amount s = fee_amount * s.protocol_share / basis_point_max

pub record QuoteAtBin : Type 0 where
  pub amount_in : ℕ
  pub amount_out : ℕ
  pub fee : ℕ
  pub protocol_fee : ℕ

abbrev pub empty_quote : QuoteAtBin
empty_quote = record { amount_in = 0; amount_out = 0; fee = 0; protocol_fee = 0 }

-- A quote with the protocol's share of its fee.
abbrev pub quote_with_fee : SParameters → (amount_in amount_out fee : ℕ) → QuoteAtBin
quote_with_fee s amount_in amount_out fee = record {
  amount_in = amount_in;
  amount_out = amount_out;
  fee = fee;
  protocol_fee = compute_protocol_fee fee s;
}

unfoldable pub get_out_amount : Bin → ℕ → Bool → Result ℕ
get_out_amount bin in_amount swap_for_y =
    if swap_for_y
    then mul_shr in_amount bin.price scale_offset down
    else shl_div in_amount bin.price scale_offset down

unfoldable pub get_amount_in : ℕ → ℕ → Bool → Result ℕ
get_amount_in amount_out price swap_for_y =
    if swap_for_y
    then shl_div amount_out price scale_offset up
    else mul_shr amount_out price scale_offset up

-- The reserve of the token that the swap takes out.
unfoldable pub max_amount_out : Bin → Bool → ℕ
max_amount_out bin swap_for_y = if swap_for_y then bin.amount_y else bin.amount_x

unfoldable pub swap_exact_out_quote_at_bin :
    Bin → ℕ → SParameters → VParameters → ℕ → Bool → Result QuoteAtBin
unfolding max_amount_out
swap_exact_out_quote_at_bin bin bin_step s v out_amount swap_for_y =
    let most_out = max_amount_out bin swap_for_y in
    if most_out == 0 then ok empty_quote else (do
      most_in ← get_amount_in most_out bin.price swap_for_y
      if leb most_out out_amount
          then ok (quote_with_fee s most_in most_out (compute_fee bin_step s v most_in))
          else (do
            amount_in ← get_amount_in out_amount bin.price swap_for_y
            ok (quote_with_fee s amount_in out_amount (compute_fee bin_step s v amount_in))))

unfoldable pub swap_exact_in_quote_at_bin :
    Bin → ℕ → SParameters → VParameters → ℕ → Bool → Result QuoteAtBin
unfolding max_amount_out
swap_exact_in_quote_at_bin bin bin_step s v in_amount swap_for_y =
    let most_out = max_amount_out bin swap_for_y in
    if most_out == 0 then ok empty_quote else (do
      most_in_after_fee ← get_amount_in most_out bin.price swap_for_y
      let max_fee = compute_fee bin_step s v most_in_after_fee
      let most_in = most_in_after_fee + max_fee
      if ltb most_in in_amount then ok (quote_with_fee s most_in most_out max_fee) else (do
        let fee = compute_fee_from_amount bin_step s v in_amount
        computed_out ← get_out_amount bin (in_amount - fee) swap_for_y
        let amount_out = if ltb most_out computed_out then most_out else computed_out
        ok (quote_with_fee s in_amount amount_out fee)))
