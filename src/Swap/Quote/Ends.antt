-- ===== src/Swap/Quote/Ends.antt =====
-- index.ts, `swapQuote` from its arguments to its outcome.
use dlmm_sdk.Prelude.{
  ℕ, ◌-◌, ◌≤◌, ◌<◌, ◌≡◌, ◌⊎◌, inl, inr, refl, ap, ◌∙◌, arith, Bool, true, ◌==◌, if◌then◌else◌,
  Option, none, some, List, Result, ok, err, insufficient_liquidity, Bool-cases,
}
use dlmm_sdk.Prelude.Int.{ℤ}
use dlmm_sdk.Pair.{Bin, BinArray, BinArrayBitmapExtension, LbPair}
use dlmm_sdk.Token.{
  TransferFee, calculate_transfer_fee_included_amount, calculate_transfer_fee_excluded_amount,
}
use dlmm_sdk.Fee.Quote.{get_out_amount_ok}
use dlmm_sdk.Swap.ExactIn.{Fill}
use dlmm_sdk.Swap.ExactIn.Totals.{IsOpened}
use dlmm_sdk.Swap.ExactIn.Loop.{IsSince, fill_loop_ends}
use dlmm_sdk.Swap.Extra.Keys.{AreDistinct}
use dlmm_sdk.Swap.Market.{IsMarket, IsInBitmaps}
use dlmm_sdk.Swap.Quote.Arrays.{enough_fuel, with_extra-IsExtended}
use dlmm_sdk.Swap.Quote.{
  Dlmm, SwapQuote, in_mint, out_mint, min_out_of, consumed_of, after_loop, loop_fuel, if_started,
  start_fill, is_max_extra_valid, quote_from, swap_quote,
}

module _ (calculate_fee : TransferFee → ℕ → ℕ) where
  -- What is left of an amount after the transfer fee.
  abbrev pub excluded : Option TransferFee → ℕ → ℕ
  excluded mint amount = (calculate_transfer_fee_excluded_amount calculate_fee mint amount).amount

  excluded-le : (mint : Option TransferFee) (amount : ℕ) → excluded mint amount ≤ amount
  unfolding calculate_transfer_fee_excluded_amount
  excluded-le none amount = omega arith
  excluded-le (some fee) amount = omega arith

  pub included-ge :
      (mint : Option TransferFee) (amount : ℕ)
      → amount ≤ (calculate_transfer_fee_included_amount calculate_fee mint amount).amount
  unfolding calculate_transfer_fee_included_amount
  included-ge none amount = omega arith
  included-ge (some fee) amount = elim (Bool-cases (amount == 0)) [
    | inl h ↦ ground arith
    | inr h ↦ rw h (omega arith)
  ]

  consumed_of_bounds :
      (mint : Option TransferFee) (in_amount actual : ℕ)
      → actual ≤ in_amount
      → (consumed_of calculate_fee mint in_amount actual ≤ in_amount)
        × (actual ≤ consumed_of calculate_fee mint in_amount actual)
  unfolding consumed_of
  consumed_of_bounds mint in_amount actual h =
      let more = included-ge mint actual in ground (arith, more, h)

  -- What a quote promises: the user pays at most what is offered, its fee is part of that, each bin
  -- array is listed once, and, unless
  -- a partial fill is allowed, all that is offered is paid for.
  pub record IsQuote (mint : Option TransferFee) (in_amount : ℕ) (is_partial_fill : Bool)
      (q : SwapQuote) : Type 0 where
    pub consumed_le : q.consumed_in_amount ≤ in_amount
    pub fee_le : q.fee ≤ q.consumed_in_amount
    pub once : AreDistinct q.bin_arrays_pubkey
    pub whole :
        (is_partial_fill ≡ true)
        ⊎ (q.consumed_in_amount
            ≡ consumed_of calculate_fee mint in_amount (excluded mint in_amount))

  unfoldable pub IsOutcome : Option TransferFee → ℕ → Bool → Result SwapQuote → Type 0
  IsOutcome mint in_amount is_partial_fill (ok q) = IsQuote mint in_amount is_partial_fill q
  IsOutcome mint in_amount is_partial_fill (err e) = e ≡ insufficient_liquidity

module _ (calculate_fee : TransferFee → ℕ → ℕ) (pair : LbPair) (extension : BinArrayBitmapExtension)
    (arrays : List BinArray) (m : IsMarket pair extension arrays)
    (mint_x mint_y : Option TransferFee) (now_ms : ℤ) (in_amount : ℕ) (y : Bool) (slippage : ℤ)
    (is_partial_fill : Bool) (max_extra : ℤ) where
  abbrev dlmm : Dlmm
  dlmm = record {
    lb_pair = pair;
    bin_array_bitmap_extension = some extension;
    token_x = mint_x;
    token_y = mint_y;
  }

  abbrev mint : Option TransferFee
  mint = in_mint dlmm y

  abbrev after_fees : ℕ
  after_fees = excluded calculate_fee mint in_amount

  -- An outcome of a quote.
  abbrev Ends : Option (Result SwapQuote) → Type 0
  Ends o =
      (r : Result SwapQuote) × (o ≡ some r)
      × IsOutcome calculate_fee mint in_amount is_partial_fill r

  started_ends :
      (f : Fill) (start : Bin)
      → IsSince (start_fill dlmm now_ms after_fees) f
      → (is_partial_fill ≡ true) ⊎ (f.in_amount_left ≡ 0)
      → 0 < start.price
      → Ends
          (quote_from calculate_fee dlmm y slippage arrays max_extra in_amount after_fees f start)
  unfolding quote_from IsOutcome start_fill
  started_ends f start since left priced =
      let (keys, run, arrays_of) =
        with_extra-IsExtended pair extension arrays m y max_extra f.active_id f.bin_arrays_for_swap
          since.inside in
      let actual = after_fees - f.in_amount_left in
      let charged = since.charged in
      let less = since.less in
      let below = excluded-le calculate_fee mint in_amount in
      let (paid_le, paid_ge) =
        consumed_of_bounds calculate_fee mint in_amount actual (omega (arith, below)) in
      let out =
        calculate_transfer_fee_excluded_amount calculate_fee (out_mint dlmm y) f.total_out_amount in
      let q : SwapQuote = record {
        consumed_in_amount = consumed_of calculate_fee mint in_amount actual;
        out_amount = out.amount;
        fee = f.fee_amount;
        protocol_fee = f.protocol_fee_amount;
        min_out_amount = min_out_of out.amount slippage;
        bin_arrays_pubkey = keys;
      } in
      (
        ok q,
        rw (get_out_amount_ok start _ y priced, run),
        record {
          consumed_le = paid_le;
          fee_le = omega (arith, paid_ge, charged, less);
          once = arrays_of.once (since.once tt);
          whole = elim left [
            | inl partial ↦ inl partial
            | inr none_left ↦
                inr (ap (consumed_of calculate_fee mint in_amount) (omega (arith, none_left)))
          ];
        },
      )

  loop_ends :
      (f : Fill) (start : Option Bin)
      → IsSince (start_fill dlmm now_ms after_fees) f
      → (is_partial_fill ≡ true) ⊎ (f.in_amount_left ≡ 0)
      → IsOpened after_fees f.in_amount_left start
      → Ends (
          if_started calculate_fee start
            (quote_from calculate_fee dlmm y slippage arrays max_extra in_amount after_fees f))
  unfolding IsOutcome
  loop_ends f none since left opened = (err insufficient_liquidity, refl, refl)
  loop_ends f (some start) since left priced = started_ends f start since left priced

  stop_ends :
      (f : Fill)
      → IsSince (start_fill dlmm now_ms after_fees) f
      → IsOpened after_fees f.in_amount_left f.start_bin
      → Ends (
          after_loop (some (if is_partial_fill then ok f else err insufficient_liquidity)) (λ g.
            if_started calculate_fee g.start_bin
              (quote_from calculate_fee dlmm y slippage arrays max_extra in_amount after_fees g)))
  unfolding IsOutcome
  stop_ends f since opened =
      let go : Bool → Option (Result SwapQuote) = λ partial.
        after_loop (some (if partial then ok f else err insufficient_liquidity)) (λ g.
          if_started calculate_fee g.start_bin
            (quote_from calculate_fee dlmm y slippage arrays max_extra in_amount after_fees g)) in
      elim (Bool-cases is_partial_fill) [
        | inl partial ↦
            let (r, run, end) = loop_ends f f.start_bin since (inl partial) opened in
            (r, ap go partial ∙ run, end)
        | inr whole ↦ (err insufficient_liquidity, ap go whole, refl)
      ]

  -- With the accounts of a pair in shape and an active bin within the bitmaps, `swapQuote` ends
  -- whatever its other arguments are, with at most three extra arrays asked for. It throws the error
  -- for insufficient liquidity, or it returns a quote that consumes at most the amount offered, with a
  -- fee that is part of what is consumed and with each bin array once, and that, unless a partial fill
  -- is allowed, consumes what pays for the whole amount after the transfer fee.
  pub swap_quote-IsOutcome :
      IsInBitmaps pair.active_id
      → is_max_extra_valid max_extra ≡ true
      → (r : Result SwapQuote) × (swap_quote calculate_fee dlmm now_ms in_amount y slippage arrays
            is_partial_fill max_extra
          ≡ some r)
        × IsOutcome calculate_fee mint in_amount is_partial_fill r
  unfolding swap_quote start_fill
  swap_quote-IsOutcome inside valid =
      let start = start_fill dlmm now_ms after_fees in
      let (f, since, end) =
        fill_loop_ends pair extension arrays m y is_partial_fill loop_fuel start inside
          (enough_fuel y pair.active_id inside) in
      let opened = since.opened after_fees refl in
      elim end [
        | inl (run, used) ↦
            let (r, quoted, is) = loop_ends f f.start_bin since (inr used) opened in
            (r, rw (valid, run) quoted, is)
        | inr run ↦
            let (r, quoted, is) = stop_ends f since opened in (r, rw (valid, run) quoted, is)
      ]
