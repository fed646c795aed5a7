-- ===== src/Rebalance/Amounts/Sides.antt =====
-- rebalancePosition.ts, the sides of the active bin that the bins of `toAmountIntoBins` lie on.
use dlmm_sdk.Prelude.{
  ℕ, zero, suc, ◌+◌, ◌*◌, ◌/◌, ◌^◌, ◌≡◌, ◌⊎◌, inl, inr, refl, ap, ◌∙◌, arith, Bool, true, false,
  List, [], ◌++◌, All, All-append, Bool-cases, leb→le, ltb-false→le, leb-false→lt,
}
use dlmm_sdk.Prelude.Int.{
  ℤ, pos, negsuc, pos_part, neg_part, neg_ℤ, ◌+ℤ◌, ◌-ℤ◌, ◌*ℤ◌, ◌≤ℤ◌, ◌<ℤ◌, ltb_ℤ, leb_ℤ, int_laws,
  parts_of_eq, ltb_ℤ→lt,
}
use dlmm_sdk.Constants.{scale_offset}
use dlmm_sdk.Math.{get_q_price_base_factor}
use dlmm_sdk.Math.Power.{pow}
use dlmm_sdk.Positions.{ids_from_to}
use dlmm_sdk.Rebalance.{bin_range_to_bin_id_array}
use dlmm_sdk.Rebalance.Amounts.{
  AmountIntoBin, only_deposit_to_bid_side, only_deposit_to_ask_side, bid_loop,
  get_amount_in_bins_bid_side, to_amount_into_bins,
}
use dlmm_sdk.Rebalance.Amounts.Asks.{
  ask_amounts, asks, amounts_into_bins, Deposits, to_amount_into_bins-Deposits,
}
use dlmm_sdk.Rebalance.Amounts.Bins.{
  amount_ids, map-append, indexes_from-split, bid_side-ids, ask_side-ids,
}

-- A bin on the bid side has no X and its step of Y; a bin on the ask side has no Y.
abbrev pub IsOnSide : (active_id delta_y y0 : ℤ) → AmountIntoBin → Type 0
IsOnSide active_id delta_y y0 b =
    ((b.bin_id ≤ℤ active_id)
      × (b.amount_x ≡ pos 0)
      × (b.amount_y ≡ y0 +ℤ delta_y *ℤ (active_id -ℤ b.bin_id)))
    ⊎ ((active_id ≤ℤ b.bin_id) × (b.amount_y ≡ pos 0))

bid_loop-IsOnSide :
    (n : ℕ) (active delta_y y0 b : ℤ)
    → b +ℤ pos n ≤ℤ active +ℤ pos 1
    → All (IsOnSide active delta_y y0) (bid_loop n active delta_y y0 b)
unfolding bid_loop
bid_loop-IsOnSide zero active delta_y y0 b h = tt
bid_loop-IsOnSide (suc n) active delta_y y0 b h = (
  inl (omega (int_laws, h), refl, refl),
  bid_loop-IsOnSide n active delta_y y0 (b +ℤ pos 1) (omega (int_laws, h)),
)

ask_amounts-IsOnSide :
    (n base : ℕ) (active delta_x x0 delta_y y0 b : ℤ) (price : ℕ) (written : List AmountIntoBin)
    → active +ℤ pos n ≤ℤ b +ℤ pos 1
    → All (IsOnSide active delta_y y0) written
    → All (IsOnSide active delta_y y0) (ask_amounts n base active delta_x x0 b price written)
unfolding ask_amounts
ask_amounts-IsOnSide zero base active delta_x x0 delta_y y0 b price written h ws = ws
ask_amounts-IsOnSide (suc n) base active delta_x x0 delta_y y0 b price written h ws =
    ask_amounts-IsOnSide n base active delta_x x0 delta_y y0 (b -ℤ pos 1)
      (price * base / 2 ^ scale_offset) _ (omega (int_laws, h))
      (inr (omega (int_laws, h), refl), ws)

bid_side-IsOnSide :
    (active lo hi delta_y y0 : ℤ)
    → lo ≤ℤ hi +ℤ pos 1
    → hi ≤ℤ pos 0
    → All (IsOnSide active delta_y y0) (get_amount_in_bins_bid_side active lo hi delta_y y0)
unfolding get_amount_in_bins_bid_side
bid_side-IsOnSide active lo hi delta_y y0 h end =
    bid_loop-IsOnSide (ids_from_to (active +ℤ lo) (active +ℤ hi)) active delta_y y0 (active +ℤ lo)
      (omega (int_laws, h, end))

ask_side-IsOnSide :
    (active : ℤ) (step : ℕ) (lo hi delta_x x0 delta_y y0 : ℤ)
    → lo ≤ℤ hi +ℤ pos 1
    → pos 0 ≤ℤ lo
    → All (IsOnSide active delta_y y0) (asks active step lo hi delta_x x0)
unfolding asks
ask_side-IsOnSide active step lo hi delta_x x0 delta_y y0 h start =
    let a = active +ℤ lo in
    let b = active +ℤ hi in
    let base = get_q_price_base_factor step in
    ask_amounts-IsOnSide (ids_from_to a b) base active delta_x x0 delta_y y0 b (pow base (neg_ℤ b))
      [] (omega (int_laws, h, start)) tt

-- What a list of amounts promises for a range.
abbrev pub IsDeposit : (active_id lo hi delta_y y0 : ℤ) → List AmountIntoBin → Type 0
IsDeposit active_id lo hi delta_y y0 bins =
    (amount_ids bins ≡ bin_range_to_bin_id_array (active_id +ℤ lo) (active_id +ℤ hi))
    × All (IsOnSide active_id delta_y y0) bins

both_sides :
    (active : ℤ) (step : ℕ) (lo end start hi delta_x delta_y x0 y0 : ℤ)
    → lo ≤ℤ end +ℤ pos 1
    → start ≤ℤ hi +ℤ pos 1
    → start ≡ end +ℤ pos 1
    → end ≤ℤ pos 0
    → pos 0 ≤ℤ start
    → IsDeposit active lo hi delta_y y0 (
        get_amount_in_bins_bid_side active lo end delta_y y0
        ++ asks active step start hi delta_x x0)
both_sides active step lo end start hi delta_x delta_y x0 y0 l h next e s =
    let a = active +ℤ lo in
    let b = active +ℤ hi in
    let m = active +ℤ end in
    let n = active +ℤ start in
    let bids = get_amount_in_bins_bid_side active lo end delta_y y0 in
    let above = asks active step start hi delta_x x0 in
    let p = parts_of_eq _ _ next in
    let count : ids_from_to a b ≡ ids_from_to a m + ids_from_to n b = omega (int_laws, l, h, p) in
    let meet : n ≡ a +ℤ pos (ids_from_to a m) = omega (int_laws, l, p) in
    (
      map-append bids above
          ∙ ap (λ (ids : List ℤ). ids ++ amount_ids above) (bid_side-ids active lo end delta_y y0)
          ∙ ap (λ (ids : List ℤ). bin_range_to_bin_id_array a m ++ ids)
              (ask_side-ids active step start hi delta_x x0 h)
          ∙ unfold bin_range_to_bin_id_array in
            indexes_from-split (ids_from_to a m) (ids_from_to n b) (ids_from_to a b) a n count meet,
      All-append (IsOnSide active delta_y y0) bids above
          (bid_side-IsOnSide active lo end delta_y y0 l e)
          (ask_side-IsOnSide active step start hi delta_x x0 delta_y y0 h s),
    )

below : (a b : ℤ) → leb_ℤ a b ≡ false → b <ℤ a
below a b h = leb-false→lt (pos_part a + neg_part b) (pos_part b + neg_part a) h

at_least : (a b : ℤ) → ltb_ℤ a b ≡ false → b ≤ℤ a
at_least a b h = ltb-false→le (pos_part a + neg_part b) (pos_part b + neg_part a) h

at_most : (a b : ℤ) → leb_ℤ a b ≡ true → a ≤ℤ b
at_most a b h = leb→le (pos_part a + neg_part b) (pos_part b + neg_part a) h

pub amounts_into_bins-IsDeposit :
    (active lo hi delta_x delta_y x0 y0 : ℤ) (step : ℕ) (favor : Bool)
    → lo ≤ℤ hi
    → IsDeposit active lo hi delta_y y0
        (amounts_into_bins active lo hi delta_x delta_y x0 y0 step favor)
unfolding amounts_into_bins only_deposit_to_bid_side only_deposit_to_ask_side
amounts_into_bins-IsDeposit active lo hi delta_x delta_y x0 y0 step true h =
    let h1 : lo ≤ℤ hi +ℤ pos 1 = omega (int_laws, h) in
    elim (Bool-cases (ltb_ℤ hi (pos 0))) [
      | inl bid ↦
          let e = ltb_ℤ→lt hi (pos 0) bid in
          rw bid (
            bid_side-ids active lo hi delta_y y0,
            bid_side-IsOnSide active lo hi delta_y y0 h1 (omega (arith, e)),
          )
      | inr not_bid ↦ elim (Bool-cases (leb_ℤ (pos 0) lo)) [
        | inl ask ↦
            rw (not_bid, ask)
              (
                ask_side-ids active step lo hi delta_x x0 h1,
                ask_side-IsOnSide active step lo hi delta_x x0 delta_y y0 h1
                    (at_most (pos 0) lo ask),
              )
        | inr not_ask ↦
            let a = at_least hi (pos 0) not_bid in
            let b = below (pos 0) lo not_ask in
            rw (not_bid, not_ask)
              (both_sides active step lo (negsuc 0) (pos 0) hi delta_x delta_y x0 y0
                (omega (int_laws, b)) (omega (int_laws, a)) (omega int_laws) (omega arith)
                (omega arith))
      ]
    ]
amounts_into_bins-IsDeposit active lo hi delta_x delta_y x0 y0 step false h =
    let h1 : lo ≤ℤ hi +ℤ pos 1 = omega (int_laws, h) in
    elim (Bool-cases (leb_ℤ hi (pos 0))) [
      | inl bid ↦ rw bid (
        bid_side-ids active lo hi delta_y y0,
        bid_side-IsOnSide active lo hi delta_y y0 h1 (at_most hi (pos 0) bid),
      )
      | inr not_bid ↦ elim (Bool-cases (ltb_ℤ (pos 0) lo)) [
        | inl ask ↦
            let e = ltb_ℤ→lt (pos 0) lo ask in
            rw (not_bid, ask)
              (
                ask_side-ids active step lo hi delta_x x0 h1,
                ask_side-IsOnSide active step lo hi delta_x x0 delta_y y0 h1 (omega (arith, e)),
              )
        | inr not_ask ↦
            let a = below hi (pos 0) not_bid in
            let b = at_least (pos 0) lo not_ask in
            rw (not_bid, not_ask)
              (both_sides active step lo (pos 0) (pos 1) hi delta_x delta_y x0 y0
                (omega (int_laws, b)) (omega (int_laws, a)) (omega int_laws) (omega arith)
                (omega arith))
      ]
    ]

-- For a range that is not empty, `toAmountIntoBins` gives amounts for the bins of the range, each of
-- them once and in order: a bin of the bid side is at or below the active one, has no X, and Y by its
-- distance from the active bin; a bin of the ask side is at or above it and has no Y. Or the
-- assertion of `shrn` fails, and only where the X of a bin of the range, at or above the active one,
-- would be negative.
pub to_amount_into_bins-IsDeposit :
    (active lo hi delta_x delta_y x0 y0 : ℤ) (step : ℕ) (favor : Bool)
    → lo ≤ℤ hi
    → (bins : List AmountIntoBin) × Deposits active lo hi delta_x x0 bins
        (to_amount_into_bins active lo hi delta_x delta_y x0 y0 step favor)
      × IsDeposit active lo hi delta_y y0 bins
to_amount_into_bins-IsDeposit active lo hi delta_x delta_y x0 y0 step favor h = (
  amounts_into_bins active lo hi delta_x delta_y x0 y0 step favor,
  to_amount_into_bins-Deposits active lo hi delta_x delta_y x0 y0 step h favor,
  amounts_into_bins-IsDeposit active lo hi delta_x delta_y x0 y0 step favor h,
)
