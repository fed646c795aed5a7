-- ===== src/Rebalance/Amounts/Asks.antt =====
-- rebalancePosition.ts, `getAmountInBinsAskSide`: the amounts that the loop writes where it does not
-- throw, as a list, and the bins for which it throws.
use dlmm_sdk.Prelude.{
  ℕ, zero, suc, ◌*◌, ◌/◌, ◌^◌, ◌≡◌, ◌⊎◌, inl, inr, refl, arith, Bool, true, false, if◌then◌else◌,
  Bool-cases, List, [], ◌∷◌, ◌++◌, Result, ok, err, ◌>>=◌, assertion_failed, leb→le, ltb-false→le,
  leb-false→lt,
}
use dlmm_sdk.Prelude.Int.{
  ℤ, pos, negsuc, neg_ℤ, ◌+ℤ◌, ◌-ℤ◌, ◌*ℤ◌, ◌≤ℤ◌, ◌<ℤ◌, is_neg, tdiv, int_laws, ltb_ℤ, leb_ℤ,
  ltb_ℤ→lt,
}
use dlmm_sdk.Constants.{scale_offset}
use dlmm_sdk.Math.{get_q_price_base_factor}
use dlmm_sdk.Math.Power.{pow}
use dlmm_sdk.Positions.{ids_from_to}
use dlmm_sdk.Rebalance.Amounts.{
  AmountIntoBin, only_deposit_to_bid_side, only_deposit_to_ask_side, get_amount_in_bins_bid_side,
  ask_loop, get_amount_in_bins_ask_side, to_amount_into_bins,
}

unfoldable pub ask_amounts :
    ℕ
    → (base : ℕ) → (active_id delta_x x0 bin_id : ℤ) → (inverse_base_price : ℕ) → List AmountIntoBin
    → List AmountIntoBin
ask_amounts zero base active_id delta_x x0 bin_id inverse_base_price written = written
ask_amounts (suc rounds) base active_id delta_x x0 bin_id inverse_base_price written =
    let entry : AmountIntoBin = record {
      bin_id = bin_id;
      amount_x =
          tdiv ((x0 +ℤ delta_x *ℤ (bin_id -ℤ active_id)) *ℤ pos inverse_base_price)
            (2 ^ scale_offset);
      amount_y = pos 0;
    } in
    ask_amounts rounds base active_id delta_x x0 (bin_id -ℤ pos 1)
      (inverse_base_price * base / 2 ^ scale_offset) (entry ∷ written)

unfoldable pub asks :
    (active_id : ℤ)
    → (bin_step : ℕ) → (min_delta_id max_delta_id delta_x x0 : ℤ) → List AmountIntoBin
asks active_id bin_step min_delta_id max_delta_id delta_x x0 =
    let max_bin_id = active_id +ℤ max_delta_id in
    let base = get_q_price_base_factor bin_step in
    ask_amounts (ids_from_to (active_id +ℤ min_delta_id) max_bin_id) base active_id delta_x x0
      max_bin_id (pow base (neg_ℤ max_bin_id)) []

unfoldable pub amounts_into_bins :
    (active_id min_delta_id max_delta_id delta_x delta_y x0 y0 : ℤ)
    → (bin_step : ℕ) → (favor_x_in_active_bin : Bool) → List AmountIntoBin
amounts_into_bins active_id min_delta_id max_delta_id delta_x delta_y x0 y0 bin_step favor =
    if only_deposit_to_bid_side max_delta_id favor
    then get_amount_in_bins_bid_side active_id min_delta_id max_delta_id delta_y y0
    else if only_deposit_to_ask_side min_delta_id favor
    then asks active_id bin_step min_delta_id max_delta_id delta_x x0
    else (get_amount_in_bins_bid_side active_id min_delta_id (if favor then negsuc 0 else pos 0)
          delta_y y0
        ++ asks active_id bin_step (if favor then pos 0 else pos 1) max_delta_id delta_x x0)

-- A bin from `first` to `last` whose amount of X would be negative.
abbrev pub HasNegative : (active_id delta_x x0 first last : ℤ) → Type 0
HasNegative active_id delta_x x0 first last =
    (b : ℤ) × (first ≤ℤ b) × (b ≤ℤ last) × (x0 +ℤ delta_x *ℤ (b -ℤ active_id) <ℤ pos 0)

-- A result that is a value, or the failed assertion at a bin with a negative amount.
abbrev pub Writes :
    (active_id delta_x x0 first last : ℤ)
    → List AmountIntoBin
    → Result (List AmountIntoBin)
    → Type 0
Writes active_id delta_x x0 first last bins r =
    (r ≡ ok bins) ⊎ ((r ≡ err assertion_failed) × HasNegative active_id delta_x x0 first last)

neg_product : (a : ℤ) (p : ℕ) → is_neg (a *ℤ pos p) ≡ true → a <ℤ pos 0
unfolding ◌*ℤ◌
neg_product (pos n) p h = ground arith
neg_product (negsuc n) p h = omega arith

ask_loop-Writes :
    (n base : ℕ) (active delta_x x0 b first : ℤ) (price : ℕ) (written : List AmountIntoBin)
    → first +ℤ pos n ≤ℤ b +ℤ pos 1
    → Writes active delta_x x0 first b
        (ask_amounts n base active delta_x x0 b price written)
        (ask_loop n base active delta_x x0 b price written)
unfolding ask_loop ask_amounts
ask_loop-Writes zero base active delta_x x0 b first price written h = inl refl
ask_loop-Writes (suc n) base active delta_x x0 b first price written h =
    let a = x0 +ℤ delta_x *ℤ (b -ℤ active) in
    elim (Bool-cases (is_neg (a *ℤ pos price))) [
      | inl negative ↦
          inr
            (rw negative refl, (b, omega (int_laws, h), omega arith, neg_product a price negative))
      | inr fine ↦
          rw fine
            (elim (ask_loop-Writes n base active delta_x x0 (b -ℤ pos 1) first
              (price * base / 2 ^ scale_offset) _ (omega (int_laws, h))) [
                | inl run ↦ inl run
                | inr (run, (j, lo, hi, negative)) ↦
                    inr (run, (j, lo, omega (int_laws, hi), negative))
              ])
    ]

not_neg : (a : ℤ) → pos 0 ≤ℤ a → is_neg a ≡ false
not_neg (pos n) h = refl
not_neg (negsuc n) h = ground arith

pub ask_side-Writes :
    (active : ℤ) (step : ℕ) (lo hi delta_x x0 : ℤ)
    → lo ≤ℤ hi +ℤ pos 1
    → Writes active delta_x x0
        (active +ℤ lo)
        (active +ℤ hi)
        (asks active step lo hi delta_x x0)
        (get_amount_in_bins_ask_side active step lo hi delta_x x0)
unfolding get_amount_in_bins_ask_side asks
ask_side-Writes active step lo hi delta_x x0 h =
    let base = get_q_price_base_factor step in
    let a = active +ℤ lo in
    let b = active +ℤ hi in
    let count : is_neg (hi -ℤ lo +ℤ pos 1) ≡ false =
      not_neg (hi -ℤ lo +ℤ pos 1) (omega (int_laws, h)) in
    rw count (
      ask_loop-Writes (ids_from_to a b) base active delta_x x0 b a (pow base (neg_ℤ b)) []
        (omega (int_laws, h)))

-- The amounts of a deposit, or the failed assertion at a bin of the deposit at or above the active one.
abbrev pub Deposits :
    (active_id min_delta_id max_delta_id delta_x x0 : ℤ)
    → List AmountIntoBin
    → Result (List AmountIntoBin)
    → Type 0
Deposits active_id min_delta_id max_delta_id delta_x x0 bins r =
    (r ≡ ok bins)
    ⊎ ((r ≡ err assertion_failed)
        × ((b : ℤ) × (active_id ≤ℤ b)
            × (active_id +ℤ min_delta_id ≤ℤ b)
            × (b ≤ℤ active_id +ℤ max_delta_id)
            × (x0 +ℤ delta_x *ℤ (b -ℤ active_id) <ℤ pos 0)))

Writes-Deposits :
    (active lo hi delta_x x0 first : ℤ) (bins : List AmountIntoBin)
    (r : Result (List AmountIntoBin))
    → active ≤ℤ first
    → active +ℤ lo ≤ℤ first
    → Writes active delta_x x0 first (active +ℤ hi) bins r
    → Deposits active lo hi delta_x x0 bins r
Writes-Deposits active lo hi delta_x x0 first bins r a l (inl run) = inl run
Writes-Deposits active lo hi delta_x x0 first bins r a l (inr (run, (b, from, to, negative))) =
    inr (run, (b, omega (arith, a, from), omega (arith, l, from), to, negative))

behind_bids :
    (active delta_x x0 first last : ℤ) (bids bins : List AmountIntoBin)
    (r : Result (List AmountIntoBin))
    → Writes active delta_x x0 first last bins r
    → Writes active delta_x x0 first last (bids ++ bins) (r >>= (λ above. ok (bids ++ above)))
behind_bids active delta_x x0 first last bids bins r (inl run) = inl (rw run refl)
behind_bids active delta_x x0 first last bids bins r (inr (run, negative)) =
    inr (rw run refl, negative)

module _ (active lo hi delta_x delta_y x0 y0 : ℤ) (step : ℕ) (fits : lo ≤ℤ hi) where
  one_side :
      pos 0 ≤ℤ lo
      → Deposits active lo hi delta_x x0
          (asks active step lo hi delta_x x0)
          (get_amount_in_bins_ask_side active step lo hi delta_x x0)
  one_side above =
      Writes-Deposits active lo hi delta_x x0 (active +ℤ lo) _ _ (omega (int_laws, above))
        (omega arith) (ask_side-Writes active step lo hi delta_x x0 (omega (int_laws, fits)))

  two_sides :
      (start : ℤ) (bids : List AmountIntoBin)
      → pos 0 ≤ℤ start
      → lo ≤ℤ start
      → start ≤ℤ hi +ℤ pos 1
      → Deposits active lo hi delta_x x0 (bids ++ asks active step start hi delta_x x0) (
          get_amount_in_bins_ask_side active step start hi delta_x x0
          >>= (λ above. ok (bids ++ above)))
  two_sides start bids above low high =
      Writes-Deposits active lo hi delta_x x0 (active +ℤ start) _ _ (omega (int_laws, above))
        (omega (int_laws, low))
        (behind_bids active delta_x x0 (active +ℤ start) (active +ℤ hi) bids _ _
          (ask_side-Writes active step start hi delta_x x0 high))

  -- `toAmountIntoBins` gives the amounts, or throws at a bin of the ask side.
  pub to_amount_into_bins-Deposits :
      (favor : Bool)
      → Deposits active lo hi delta_x x0
          (amounts_into_bins active lo hi delta_x delta_y x0 y0 step favor)
          (to_amount_into_bins active lo hi delta_x delta_y x0 y0 step favor)
  unfolding to_amount_into_bins amounts_into_bins only_deposit_to_bid_side only_deposit_to_ask_side
  to_amount_into_bins-Deposits true = elim (Bool-cases (ltb_ℤ hi (pos 0))) [
    | inl bid ↦ rw bid (inl refl)
    | inr not_bid ↦ elim (Bool-cases (leb_ℤ (pos 0) lo)) [
      | inl ask ↦ rw (not_bid, ask) (one_side (leb→le _ _ ask))
      | inr not_ask ↦
          let a : pos 0 ≤ℤ hi = ltb-false→le _ _ not_bid in
          let b : lo <ℤ pos 0 = leb-false→lt _ _ not_ask in
          rw (not_bid, not_ask)
            (two_sides (pos 0) _ (omega arith) (omega (arith, b)) (omega (int_laws, a)))
    ]
  ]
  to_amount_into_bins-Deposits false = elim (Bool-cases (leb_ℤ hi (pos 0))) [
    | inl bid ↦ rw bid (inl refl)
    | inr not_bid ↦ elim (Bool-cases (ltb_ℤ (pos 0) lo)) [
      | inl ask ↦
          let e : pos 0 <ℤ lo = ltb_ℤ→lt (pos 0) lo ask in
          rw (not_bid, ask) (one_side (omega (arith, e)))
      | inr not_ask ↦
          let a : pos 0 <ℤ hi = leb-false→lt _ _ not_bid in
          let b : lo ≤ℤ pos 0 = ltb-false→le _ _ not_ask in
          rw (not_bid, not_ask)
            (two_sides (pos 1) _ (omega arith) (omega (arith, b)) (omega (int_laws, a)))
    ]
  ]
