-- ===== src/Rebalance/Liquidity/Curve/Ends.antt =====
-- curve.ts, `findY0AndDeltaY`: the loop ends, within the amount.
use native.Mathlib.Nat.{mul-le-mul, le_refl, zero-div}
use dlmm_sdk.Prelude.{
  ℕ, zero, suc, Fueled, ◌-◌, ◌*◌, ◌≤◌, ◌<◌, ◌≡◌, refl, ap, ◌∙◌, inl, inr, arith, false, Bool-cases,
  List, some, ok, ◌==◌, le→ltb-false, ltb-false→le, ==→eq,
}
use dlmm_sdk.Prelude.Int.{
  ℤ, pos, pos_part, neg_part, neg_ℤ, ◌+ℤ◌, ◌-ℤ◌, ◌*ℤ◌, ◌≤ℤ◌, ltb_ℤ, is_zero_ℤ, int_laws, +ℤ_parts,
  parts_exclusive, parts_of_eq, pos_mul, tdiv,
}
use dlmm_sdk.Positions.{ids_from_to}
use dlmm_sdk.Rebalance.Amounts.{AmountIntoBin, bid_loop, get_amount_in_bins_bid_side}
use dlmm_sdk.Rebalance.Deposit.{div_ℤ}
use dlmm_sdk.Rebalance.Liquidity.{BidAskParameters, no_parameters, reduce_amounts}
use dlmm_sdk.Rebalance.Liquidity.Sums.{reduce-cons}
use dlmm_sdk.Rebalance.Liquidity.Curve.Base.{find_base_y0_lem}
use dlmm_sdk.Rebalance.Liquidity.Curve.{total_y, y0_loop, find_y0_and_delta_y}

abbrev sum_y : List AmountIntoBin → ℤ
sum_y bins = reduce_amounts (λ b. b.amount_y) (pos 0) bins

fewer : (q j : ℕ) → q * (j - 1) ≤ q * j
fewer q j = mul-le-mul (le_refl q) (omega arith)

none_left :
    (n : ℕ) (active : ℤ) (q : ℕ) (y b : ℤ) → n ≡ 0 → sum_y (bid_loop n active (pos q) y b) ≤ℤ pos 0
unfolding bid_loop reduce_amounts
none_left zero active q y b e = omega arith
none_left (suc n) active q y b e = absurd (omega arith)

-- Amounts that start at most at zero and fall with each bin add up to at most zero.
bid_loop-nonpositive :
    (n j q : ℕ) (active y b : ℤ)
    → active -ℤ b ≡ pos j
    → n ≤ suc j
    → y +ℤ pos (q * j) ≤ℤ pos 0
    → sum_y (bid_loop n active (pos q) y b) ≤ℤ pos 0
unfolding bid_loop
bid_loop-nonpositive zero j q active y b e h low = unfold reduce_amounts in (omega arith)
bid_loop-nonpositive (suc n) j q active y b e h low =
    let entry : y +ℤ pos q *ℤ (active -ℤ b) ≡ y +ℤ pos (q * j) =
      ap (λ (z : ℤ). y +ℤ pos q *ℤ z) e ∙ ap (λ (z : ℤ). y +ℤ z) (pos_mul q j) in
    let first : AmountIntoBin = record {
      bin_id = b;
      amount_x = pos 0;
      amount_y = y +ℤ pos q *ℤ (active -ℤ b);
    } in
    let rest = bid_loop n active (pos q) y (b +ℤ pos 1) in
    let next : sum_y rest ≤ℤ pos 0 = elim (Bool-cases (n == 0)) [
      | inl last ↦ none_left n active q y (b +ℤ pos 1) (==→eq n 0 last)
      | inr more ↦
          let some_left : 0 < n = ground arith in
          bid_loop-nonpositive n (j - 1) q active y (b +ℤ pos 1)
            (omega (int_laws, parts_of_eq _ _ e, h, some_left)) (omega (arith, h))
            (omega (int_laws, low, fewer q j))
    ] in
    omega (
      arith,
      +ℤ_parts (first.amount_y) (sum_y rest),
      parts_of_eq _ _ entry,
      parts_of_eq _ _ (reduce-cons (λ a. a.amount_y) first rest),
      low,
      next,
    )

module _ (lo hi active : ℤ) (ordered : lo ≤ℤ hi) (bid : hi ≤ℤ pos 0) where
  -- The distance of the first bin.
  abbrev far : ℕ
  far = neg_part lo

  no_pos_part : pos_part lo ≡ 0
  no_pos_part = elim (parts_exclusive lo) [ inl e ↦ e | inr e ↦ omega (arith, ordered, bid, e) ]

  nonpositive :
      (q : ℕ) (y : ℤ) → y +ℤ pos (q * far) ≤ℤ pos 0 → total_y lo hi active (pos q) y ≤ℤ pos 0
  unfolding total_y get_amount_in_bins_bid_side
  nonpositive q y low =
      bid_loop-nonpositive (ids_from_to (active +ℤ lo) (active +ℤ hi)) far q active y (active +ℤ lo)
        (omega (int_laws, no_pos_part)) (omega (int_laws, no_pos_part, ordered, bid)) low

  step_of : (z : ℤ) → div_ℤ z (neg_ℤ lo +ℤ pos 1) ≡ ok (tdiv z (suc far))
  unfolding div_ℤ
  step_of z =
      let e : neg_ℤ lo +ℤ pos 1 ≡ pos (suc far) = omega (int_laws, no_pos_part) in
      rw e (ground arith)

  -- The loop returns, and the total of its parameters is at most the amount.
  abbrev pub EndsWithin : ℕ → Fueled BidAskParameters → Type 0
  EndsWithin amount r =
      (p : BidAskParameters) × (r ≡ some (ok p))
      × (total_y lo hi active p.delta p.base ≤ℤ pos amount)

  abbrev delta_of : ℕ → ℤ
  delta_of x = tdiv (neg_ℤ (pos x)) (suc far)

  delta_of_zero : delta_of 0 ≡ pos 0
  unfolding neg_ℤ tdiv
  delta_of_zero = ap pos (zero-div (suc far))

  stops_at_zero :
      (amount : ℕ) → ltb_ℤ (pos amount) (total_y lo hi active (delta_of 0) (pos 0)) ≡ false
  stops_at_zero amount =
      rw delta_of_zero (le→ltb-false _ _ (omega (arith, nonpositive 0 (pos 0) (omega int_laws))))

  returned :
      (amount : ℕ) (base delta : ℤ)
      → ltb_ℤ (pos amount) (total_y lo hi active delta base) ≡ false
      → EndsWithin amount (some (ok (record { base = base; delta = delta })))
  returned amount base delta h = (record { base = base; delta = delta }, refl, ltb-false→le _ _ h)

  y0_loop-EndsWithin :
      (amount fuel x : ℕ)
      → x < fuel
      → EndsWithin amount (y0_loop fuel (pos amount) lo hi active (pos x))
  unfolding y0_loop
  y0_loop-EndsWithin amount zero x enough = elim enough [ ]
  y0_loop-EndsWithin amount (suc fuel) zero enough =
      rw (step_of (neg_ℤ (pos 0)), stops_at_zero amount)
        (returned amount (pos 0) (delta_of 0) (stops_at_zero amount))
  y0_loop-EndsWithin amount (suc fuel) (suc x) enough =
      rw (step_of (neg_ℤ (pos (suc x))))
        (elim (Bool-cases
          (ltb_ℤ (pos amount) (total_y lo hi active (delta_of (suc x)) (pos (suc x))))) [
            | inl over ↦
                let e : pos (suc x) -ℤ pos 1 ≡ pos x = omega int_laws in
                rw (over, e) (y0_loop-EndsWithin amount fuel x (omega arith))
            | inr stop ↦ rw stop (returned amount (pos (suc x)) (delta_of (suc x)) stop)
          ])

  find_y-EndsWithin :
      (b fuel : ℕ) → b < fuel → EndsWithin b (find_y0_and_delta_y fuel (pos b) lo hi active)
  unfolding find_y0_and_delta_y
  find_y-EndsWithin b fuel enough =
      let range : ltb_ℤ hi lo ≡ false = le→ltb-false _ _ ordered in
      elim (Bool-cases (is_zero_ℤ (pos b))) [
        | inl nothing ↦
            rw (range, nothing)
              (no_parameters, refl, omega (arith, nonpositive 0 (pos 0) (omega int_laws)))
        | inr some_amount ↦
            let (x, e, small) = find_base_y0_lem b lo hi (ground arith) ordered bid in
            rw (range, some_amount, e) (y0_loop-EndsWithin b fuel x (omega (arith, enough, small)))
      ]

-- For a range of the bid side that is not empty, and fuel above the amount of Y, the loop of
-- `findY0AndDeltaY` of the curve strategy ends without an error, with parameters whose amounts over the
-- bins of the range add up to at most the amount.
pub find_y0_and_delta_y-EndsWithin :
    (b fuel : ℕ) (lo hi active : ℤ)
    → lo ≤ℤ hi
    → hi ≤ℤ pos 0
    → b < fuel
    → (p : BidAskParameters) × (find_y0_and_delta_y fuel (pos b) lo hi active ≡ some (ok p))
      × (total_y lo hi active p.delta p.base ≤ℤ pos b)
find_y0_and_delta_y-EndsWithin b fuel lo hi active ordered bid enough =
    find_y-EndsWithin lo hi active ordered bid b fuel enough
