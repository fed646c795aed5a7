-- ===== src/Fee/Quote/Exchange.antt =====
-- fee.ts, the exact-output quote of a bin against the exact-input quote.
use native.Mathlib.Nat.{mul-le-mul, le_refl}
use native.Mathlib.Decide.{dec_lt}
use dlmm_sdk.Prelude.{
  ℕ, ◌+◌, ◌-◌, ◌*◌, ◌≤◌, ◌<◌, ◌≡◌, ◌↔◌, Bool, if◌then◌else◌, ok, arith, ltb, leb, ◌==◌, refl,
  Bool-cases, inl, inr, min, sym, ◌∙◌, ◌⊎◌, ==→eq, ap, ok_injective,
}
use dlmm_sdk.Math.{up, down, round_div}
use dlmm_sdk.Math.Rounded.{round_div-down_bounds, round_div-up_bounds}
use dlmm_sdk.Pair.{Bin, SParameters, VParameters}
use dlmm_sdk.Fee.{
  get_total_fee, QuoteAtBin, empty_quote, quote_with_fee, get_out_amount, get_amount_in,
  max_amount_out, compute_fee, compute_fee_from_amount, swap_exact_in_quote_at_bin,
  swap_exact_out_quote_at_bin,
}
use dlmm_sdk.Constants.{fee_precision}
use dlmm_sdk.Fee.Amount.{compute_fee_bounds, compute_fee_from_amount-compute_fee}
use dlmm_sdk.Fee.Quote.{
  rate_num, rate_den, rate_num_pos, rate_den_pos, get_out_amount_ok, get_amount_in_ok,
}

lt_of_scaled : (a b q : ℕ) → a * q < b * q → a < b
lt_of_scaled a b q h = elim (dec_lt a b) [ yes p ↦ p | no p ↦ absurd (grind arith) ]

scaled_le : (a b q : ℕ) → a ≤ b → a * q ≤ b * q
scaled_le a b q h = mul-le-mul h (le_refl q)

-- Rounding up on one side and down on the other are adjoint.
round_div_galois :
    (a x p q : ℕ) → 0 < p → 0 < q → (round_div (a * q) p up ≤ x) ↔ (a ≤ round_div (x * p) q down)
round_div_galois a x p q hp hq =
    let (lo, hi) = round_div-up_bounds (a * q) p hp in
    let (lo', hi') = round_div-down_bounds (x * p) q hq in
    (
      λ h. omega (
        arith,
        lt_of_scaled a (round_div (x * p) q down + 1) q (omega (arith, scaled_le _ x p h)),
      ),
      λ h. omega (
        arith,
        lt_of_scaled (round_div (a * q) p up) (x + 1) p (omega (arith, scaled_le a _ q h)),
      ),
    )

-- For a bin with a price, `getAmountIn` gives the least input for which `getOutAmount` reaches the
-- output asked for.
pub get_amount_in_least :
    (bin : Bin) (out x n o : ℕ) (y : Bool)
    → 0 < bin.price
    → get_amount_in out bin.price y ≡ ok n
    → get_out_amount bin x y ≡ ok o
    → (n ≤ x) ↔ (out ≤ o)
get_amount_in_least bin out x n o y h en eo =
    let same_n : n ≡ round_div (out * rate_den bin y) (rate_num bin y) up =
      ground (arith, sym en ∙ get_amount_in_ok bin out y h) in
    let same_o : o ≡ round_div (x * rate_num bin y) (rate_den bin y) down =
      ground (arith, sym eo ∙ get_out_amount_ok bin x y h) in
    rw (same_n, same_o)
      (round_div_galois out x (rate_num bin y) (rate_den bin y) (rate_num_pos bin y h)
        (rate_den_pos bin y h))

-- What the quote of an exact output promises: the output is the smaller of the one asked for and the
-- reserve, and the input before the fee is the least that pays for it.
pub record IsLeastQuote (bin : Bin) (bin_step : ℕ) (s : SParameters) (v : VParameters) (y : Bool)
    (amount : ℕ) (q : QuoteAtBin) : Type 0 where
  pub out_eq : q.amount_out ≡ min amount (max_amount_out bin y)
  pub paid : q.amount_out * rate_den bin y ≤ q.amount_in * rate_num bin y
  pub least : q.amount_in * rate_num bin y < q.amount_out * rate_den bin y + rate_num bin y
  pub fee_eq : q.fee ≡ compute_fee bin_step s v q.amount_in

compute_fee-zero :
    (bin_step : ℕ) (s : SParameters) (v : VParameters) → compute_fee bin_step s v 0 ≡ 0
compute_fee-zero bin_step s v =
    let (_, hi) = compute_fee_bounds bin_step s v 0 in
    omega (
      arith,
      lt_of_scaled (compute_fee bin_step s v 0) 1 (fee_precision - get_total_fee bin_step s v)
          (omega (arith, hi)),
    )

either_le : (m n k : ℕ) → (if ltb m n then m else n) ≡ k → (m ≤ k) ⊎ (n ≤ k)
either_le m n k e = elim (Bool-cases (ltb m n)) [
  | inl b ↦ inl (omega (arith, rw b at e))
  | inr b ↦ inr (omega (arith, rw b at e))
]

-- An exact input is paid the whole reserve, or all that the input less its fee is worth.
exact_in_at_least :
    (bin : Bin) (bin_step : ℕ) (s : SParameters) (v : VParameters) (amount : ℕ) (y : Bool)
    (r : QuoteAtBin)
    → 0 < bin.price
    → swap_exact_in_quote_at_bin bin bin_step s v amount y ≡ ok r
    → (max_amount_out bin y ≤ r.amount_out)
      ⊎ (round_div
            ((amount - compute_fee_from_amount bin_step s v amount) * rate_num bin y)
            (rate_den bin y)
            down
          ≤ r.amount_out)
exact_in_at_least bin bin_step s v amount y r h e =
    let most = max_amount_out bin y in
    let net = round_div (most * rate_den bin y) (rate_num bin y) up in
    let max_fee = compute_fee bin_step s v net in
    let fee = compute_fee_from_amount bin_step s v amount in
    elim (Bool-cases (max_amount_out bin y == 0)) [
      | inl dry ↦ inl (ground arith)
      | inr wet ↦ elim (Bool-cases (ltb (net + max_fee) amount)) [
        | inl full ↦
            unfold swap_exact_in_quote_at_bin in
            let g = rw (wet, get_amount_in_ok bin most y h, full) at e in inl (ground arith)
        | inr part ↦
            unfold swap_exact_in_quote_at_bin in
            let g =
              rw
                (wet, get_amount_in_ok bin most y h, part, get_out_amount_ok bin (amount - fee) y h)
                at e in
            let out = round_div ((amount - fee) * rate_num bin y) (rate_den bin y) down in
            either_le most out r.amount_out
              (ap (λ (q : QuoteAtBin). q.amount_out) (ok_injective _ r g))
      ]
    ]

module _ (bin : Bin) (bin_step : ℕ) (s : SParameters) (v : VParameters) (out : ℕ) (y : Bool)
    (priced : 0 < bin.price) where
  quote_for : ℕ → QuoteAtBin
  quote_for a =
      let net = round_div (a * rate_den bin y) (rate_num bin y) up in
      quote_with_fee s net a (compute_fee bin_step s v net)

  quote_for-IsLeastQuote :
      (a : ℕ)
      → a ≡ min out (max_amount_out bin y)
      → IsLeastQuote bin bin_step s v y out (quote_for a)
  unfolding quote_for
  quote_for-IsLeastQuote a e =
      let (lo, hi) =
        round_div-up_bounds (a * rate_den bin y) (rate_num bin y) (rate_num_pos bin y priced) in
      record { out_eq = e; paid = lo; least = hi; fee_eq = refl }

  empty-IsLeastQuote : max_amount_out bin y ≡ 0 → IsLeastQuote bin bin_step s v y out empty_quote
  empty-IsLeastQuote dry = record {
    out_eq = omega arith;
    paid = omega arith;
    least = omega (arith, rate_num_pos bin y priced);
    fee_eq = sym (compute_fee-zero bin_step s v);
  }

  -- For a bin with a price, the quote of an exact output does not throw; it gives the smaller of the
  -- output asked for and the reserve, for the least input before the fee that pays for it.
  pub swap_exact_out-IsLeastQuote :
      (q : QuoteAtBin) × (swap_exact_out_quote_at_bin bin bin_step s v out y ≡ ok q)
      × IsLeastQuote bin bin_step s v y out q
  swap_exact_out-IsLeastQuote =
      let most = max_amount_out bin y in
      elim (Bool-cases (max_amount_out bin y == 0)) [
        | inl dry ↦
            unfold swap_exact_out_quote_at_bin in
            (empty_quote, rw dry, empty-IsLeastQuote (==→eq _ _ dry))
        | inr wet ↦ elim (Bool-cases (leb (max_amount_out bin y) out)) [
          | inl all ↦
              unfold swap_exact_out_quote_at_bin quote_for in
              (
                quote_for most,
                rw (wet, get_amount_in_ok bin most y priced, all),
                quote_for-IsLeastQuote most (ground arith),
              )
          | inr some_left ↦
              unfold swap_exact_out_quote_at_bin quote_for in
              (
                quote_for out,
                rw (
                  wet,
                  get_amount_in_ok bin most y priced,
                  some_left,
                  get_amount_in_ok bin out y priced,
                ),
                quote_for-IsLeastQuote out (ground arith),
              )
        ]
      ]

  paid_back :
      (q r : QuoteAtBin)
      → IsLeastQuote bin bin_step s v y out q
      → swap_exact_in_quote_at_bin bin bin_step s v (q.amount_in + q.fee) y ≡ ok r
      → q.amount_out ≤ r.amount_out
  paid_back q r l er =
      let n = q.amount_in in
      let taken : compute_fee_from_amount bin_step s v (n + q.fee) ≡ q.fee =
        rw l.fee_eq (compute_fee_from_amount-compute_fee bin_step s v n) in
      let back : n + q.fee - q.fee ≡ n = omega arith in
      let (_, hi) =
        round_div-down_bounds (n * rate_num bin y) (rate_den bin y) (rate_den_pos bin y priced) in
      elim (exact_in_at_least bin bin_step s v (n + q.fee) y r priced er) [
        | inl all ↦ omega (arith, l.out_eq)
        | inr worth ↦
            let paid : round_div (n * rate_num bin y) (rate_den bin y) down ≤ r.amount_out =
              rw (taken, back) at worth in
            omega (
              arith,
              lt_of_scaled q.amount_out (round_div (n * rate_num bin y) (rate_den bin y) down + 1)
                  (rate_den bin y) (omega (arith, l.paid)),
            )
      ]

  -- For a bin with a price, paying what the exact-output quote asks, its fee included, the exact-input
  -- quote gives at least the quoted output.
  pub swap_exact_in-swap_exact_out :
      (q r : QuoteAtBin)
      → swap_exact_out_quote_at_bin bin bin_step s v out y ≡ ok q
      → swap_exact_in_quote_at_bin bin bin_step s v (q.amount_in + q.fee) y ≡ ok r
      → q.amount_out ≤ r.amount_out
  swap_exact_in-swap_exact_out q r eq er =
      let (q', e, least) = swap_exact_out-IsLeastQuote in
      let same : q' ≡ q = ok_injective _ _ (sym e ∙ eq) in paid_back q r (rw same at least) er
