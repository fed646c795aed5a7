-- ===== src/Fee/Quote.antt =====
-- fee.ts, the exact-input quote of a bin. The price is a fraction, `rate_num / rate_den` of the other
-- token for each unit put in, so that both directions are one statement.
pub mod Exchange
use dlmm_sdk.Prelude.{
  ℕ, ◌+◌, ◌-◌, ◌*◌, ◌^◌, ◌≤◌, ◌<◌, ◌≡◌, Bool, true, false, if◌then◌else◌, ok, arith, ltb, leb, ◌==◌,
  refl, Bool-cases, inl, inr, pos_test, ltb-false→le, ltb→lt,
}
use native.Mathlib.Nat.{le_trans, le_refl, mul-le-mul}
use dlmm_sdk.Constants.{basis_point_max}
use dlmm_sdk.Math.{up, down, round_div}
use dlmm_sdk.Math.Rounded.{round_div-down_bounds, round_div-up_bounds, mul_shr_ok, shl_div_ok}
use dlmm_sdk.Pair.{Bin, SParameters, VParameters}
use dlmm_sdk.Fee.{
  QuoteAtBin, empty_quote, quote_with_fee, get_out_amount, get_amount_in, max_amount_out,
  compute_fee, compute_fee_from_amount, compute_protocol_fee, swap_exact_in_quote_at_bin,
  swap_exact_out_quote_at_bin,
}
use dlmm_sdk.Fee.Amount.{compute_fee_from_amount-le, compute_protocol_fee-le}

abbrev pub rate_num : Bin → Bool → ℕ
rate_num bin true = bin.price
rate_num bin false = 2 ^ 64

abbrev pub rate_den : Bin → Bool → ℕ
rate_den bin true = 2 ^ 64
rate_den bin false = bin.price

pub rate_num_pos : (bin : Bin) (y : Bool) → 0 < bin.price → 0 < rate_num bin y
rate_num_pos bin true h = h
rate_num_pos bin false h = omega arith

pub rate_den_pos : (bin : Bin) (y : Bool) → 0 < bin.price → 0 < rate_den bin y
rate_den_pos bin true h = omega arith
rate_den_pos bin false h = h

pub get_out_amount_ok :
    (bin : Bin) (x : ℕ) (y : Bool)
    → 0 < bin.price
    → get_out_amount bin x y ≡ ok (round_div (x * rate_num bin y) (rate_den bin y) down)
unfolding get_out_amount
get_out_amount_ok bin x true h = mul_shr_ok x bin.price 64 down
get_out_amount_ok bin x false h = shl_div_ok x bin.price 64 down h

pub get_amount_in_ok :
    (bin : Bin) (x : ℕ) (y : Bool)
    → 0 < bin.price
    → get_amount_in x bin.price y ≡ ok (round_div (x * rate_den bin y) (rate_num bin y) up)
unfolding get_amount_in
get_amount_in_ok bin x true h = shl_div_ok x bin.price 64 up h
get_amount_in_ok bin x false h = mul_shr_ok x bin.price 64 up

-- What a quote for `amount` promises: it takes at most `amount`, its fee included; it gives at most
-- the reserve and at most the price of what is left after the fee; the protocol's share is part of
-- the fee.
pub record IsFairQuote (bin : Bin) (y : Bool) (amount : ℕ) (q : QuoteAtBin) : Type 0 where
  pub in_le : q.amount_in ≤ amount
  pub fee_le : q.fee ≤ q.amount_in
  pub protocol_le : q.protocol_fee ≤ q.fee
  pub out_le : q.amount_out ≤ max_amount_out bin y
  pub priced : q.amount_out * rate_den bin y ≤ (q.amount_in - q.fee) * rate_num bin y

pub smaller_le : (m n : ℕ) → (if ltb m n then m else n) ≤ n
smaller_le m n = ground arith

module _ (bin : Bin) (bin_step : ℕ) (s : SParameters) (v : VParameters) (in_amount : ℕ) (y : Bool)
    (priced : 0 < bin.price) (share : s.protocol_share ≤ basis_point_max) where
  empty-IsFairQuote : IsFairQuote bin y in_amount empty_quote
  empty-IsFairQuote = omega arith

  full-IsFairQuote :
      (most net fee : ℕ)
      → most ≡ max_amount_out bin y
      → net ≡ round_div (most * rate_den bin y) (rate_num bin y) up
      → net + fee < in_amount
      → IsFairQuote bin y in_amount (quote_with_fee s (net + fee) most fee)
  full-IsFairQuote most net fee em en lt = record {
    in_le = omega arith;
    fee_le = omega arith;
    protocol_le = compute_protocol_fee-le fee s share;
    out_le = omega arith;
    priced =
        let same : net + fee - fee ≡ net = omega arith in
        rw (same, en) (round_div-up_bounds _ _ (rate_num_pos bin y priced)).0;
  }

  partial-IsFairQuote :
      (most net fee : ℕ)
      → most ≡ max_amount_out bin y
      → fee ≤ in_amount
      → net ≡ round_div ((in_amount - fee) * rate_num bin y) (rate_den bin y) down
      → IsFairQuote bin y in_amount
          (quote_with_fee s in_amount (if ltb most net then most else net) fee)
  partial-IsFairQuote most net fee em le en = record {
    in_le = omega arith;
    fee_le = le;
    protocol_le = compute_protocol_fee-le fee s share;
    out_le = ground arith;
    priced =
        le_trans (mul-le-mul (smaller_le most net) (le_refl _))
          (rw en (round_div-down_bounds _ _ (rate_den_pos bin y priced)).0);
  }

  -- For a bin with a price and a share of at most all, the quote of an exact input does not throw,
  -- and it is fair.
  pub swap_exact_in-IsFairQuote :
      (q : QuoteAtBin) × (swap_exact_in_quote_at_bin bin bin_step s v in_amount y ≡ ok q)
      × IsFairQuote bin y in_amount q
  swap_exact_in-IsFairQuote =
      let most = max_amount_out bin y in
      let net = round_div (most * rate_den bin y) (rate_num bin y) up in
      let max_fee = compute_fee bin_step s v net in
      let fee = compute_fee_from_amount bin_step s v in_amount in
      let out = round_div ((in_amount - fee) * rate_num bin y) (rate_den bin y) down in
      elim (Bool-cases (max_amount_out bin y == 0)) [
        | inl dry ↦ unfold swap_exact_in_quote_at_bin in (empty_quote, rw dry, empty-IsFairQuote)
        | inr wet ↦ elim (Bool-cases (ltb (net + max_fee) in_amount)) [
          | inl full ↦
              unfold swap_exact_in_quote_at_bin in
              (
                quote_with_fee s (net + max_fee) most max_fee,
                rw (wet, get_amount_in_ok bin most y priced, full),
                full-IsFairQuote most net max_fee refl refl (ltb→lt _ _ full),
              )
          | inr part ↦
              unfold swap_exact_in_quote_at_bin in
              (
                quote_with_fee s in_amount (if ltb most out then most else out) fee,
                rw (
                  wet,
                  get_amount_in_ok bin most y priced,
                  part,
                  get_out_amount_ok bin (in_amount - fee) y priced,
                ),
                partial-IsFairQuote most out fee refl
                    (compute_fee_from_amount-le bin_step s v in_amount) refl,
              )
        ]
      ]
