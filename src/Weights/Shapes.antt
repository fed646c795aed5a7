-- ===== src/Weights/Shapes.antt =====
-- strategy.ts, the weights of a curve and of its inverse, bid-ask.
use native.Mathlib.Nat.{div-mul-le_self, mul-le-mul, le_refl}
use dlmm_sdk.Prelude.{
  ℕ, zero, suc, ◌+◌, ◌-◌, ◌*◌, ◌/◌, ◌≤◌, ◌≡◌, refl, ap, inl, inr, arith, false, List, ◌∷◌, map, All,
  ok, Bool-cases, lt→ltb, le→ltb-false, sym,
}
use dlmm_sdk.Prelude.Int.{
  ℤ, pos, pos_part, neg_part, ◌+ℤ◌, ◌-ℤ◌, ◌*ℤ◌, ◌≤ℤ◌, ◌<ℤ◌, ltb_ℤ, int_laws, parts_of_eq, pos_mul,
  ltb_ℤ→lt,
}
use dlmm_sdk.Rebalance.{bin_range_to_bin_id_array}
use dlmm_sdk.Positions.{ids_from_to, indexes_from}
use dlmm_sdk.Weights.{
  BinWeight, weights_from, diff_over, curve_weight, bid_ask_weight, default_min_weight,
  default_max_weight, to_weight_curve, to_weight_bid_ask,
}

abbrev pub weight_ids : List BinWeight → List ℤ
weight_ids bins = map (λ b. b.bin_id) bins

pub weights_from-ids :
    (weight : ℤ → ℤ) (n : ℕ) (i : ℤ) → weight_ids (weights_from weight n i) ≡ indexes_from n i
unfolding weights_from indexes_from
weights_from-ids weight zero i = refl
weights_from-ids weight (suc n) i =
    ap (λ (ids : List ℤ). i ∷ ids) (weights_from-ids weight n (i +ℤ pos 1))

-- The difference of a side, once for each step of a distance, is at most the whole difference.
steps_fit : (d w : ℕ) → d ≤ w → d * (1800 / w) ≤ 1800
steps_fit d w h = grind (arith, div-mul-le_self 1800 w, mul-le-mul h (le_refl (1800 / w)))

-- What a distance takes from the weight, or adds to it.
drop :
    (near far a b : ℤ)
    → b <ℤ a
    → a -ℤ b ≤ℤ far -ℤ near
    → (k : ℕ) × ((a -ℤ b) *ℤ diff_over near far ≡ pos k) × (k ≤ 1800)
unfolding diff_over
drop near far a b before within =
    let d = pos_part a + neg_part b - (pos_part b + neg_part a) in
    let w = pos_part far + neg_part near - (pos_part near + neg_part far) in
    let ahead : near <ℤ far = omega (int_laws, before, within) in
    let e : a -ℤ b ≡ pos d = omega (int_laws, before) in
    (
      d * (1800 / w),
      rw (lt→ltb _ _ ahead, e) (pos_mul d (1800 / w)),
      steps_fit d w (omega (int_laws, before, within)),
    )

-- A weight lies between the smallest and the largest.
abbrev pub IsWeight : ℤ → Type 0
IsWeight weight = (pos default_min_weight ≤ℤ weight) × (weight ≤ℤ pos default_max_weight)

-- Both weights of one bin.
abbrev pub Mirrors : (lo hi active i : ℤ) → Type 0
Mirrors lo hi active i =
    IsWeight (curve_weight lo hi active i)
    × (curve_weight lo hi active i +ℤ bid_ask_weight lo hi active i ≡ pos 2200)

module _ (lo hi active : ℤ) where
  weights_below : (i : ℤ) → lo ≤ℤ i → i <ℤ active → Mirrors lo hi active i
  unfolding curve_weight bid_ask_weight
  weights_below i above below =
      let within : active -ℤ i ≤ℤ active -ℤ lo = omega (int_laws, above) in
      let (k, e, small) = drop lo active active i below within in
      rw (lt→ltb _ _ below, e) (omega (int_laws, small))

  weights_above : (i : ℤ) → i ≤ℤ hi → active <ℤ i → Mirrors lo hi active i
  unfolding curve_weight bid_ask_weight
  weights_above i below above =
      let within : i -ℤ active ≤ℤ hi -ℤ active = omega (int_laws, below) in
      let (k, e, small) = drop active hi i active above within in
      let behind : ltb_ℤ i active ≡ false = ground arith in
      rw (behind, lt→ltb _ _ above, e) (omega (int_laws, small))

  weights_Mirror : (i : ℤ) → lo ≤ℤ i → i ≤ℤ hi → Mirrors lo hi active i
  unfolding curve_weight bid_ask_weight
  weights_Mirror i above below = elim (Bool-cases (ltb_ℤ i active)) [
    | inl before ↦ weights_below i above (ltb_ℤ→lt i active before)
    | inr past ↦ elim (Bool-cases (ltb_ℤ active i)) [
      | inl beyond ↦ weights_above i below (ltb_ℤ→lt active i beyond)
      | inr here ↦ rw (past, here) (omega int_laws)
    ]
  ]

-- The bin with the weight on the other side of the middle of the weights.
abbrev pub reflect : BinWeight → BinWeight
reflect b = record { bin_id = b.bin_id; weight = pos 2200 -ℤ b.weight }

-- A bin of a curve: its weight is in bounds, and the largest at the active bin.
abbrev pub IsOnCurve : ℤ → BinWeight → Type 0
IsOnCurve active b = IsWeight b.weight × (b.bin_id ≡ active → b.weight ≡ pos default_max_weight)

curve_weight_active :
    (lo hi active i : ℤ) → i ≡ active → curve_weight lo hi active i ≡ pos default_max_weight
unfolding curve_weight
curve_weight_active lo hi active i e =
    let before : ltb_ℤ i active ≡ false = ground (arith, parts_of_eq i active e) in
    let beyond : ltb_ℤ active i ≡ false = ground (arith, parts_of_eq i active e) in
    rw (before, beyond) refl

loop_reflect :
    (lo hi active : ℤ) (n : ℕ) (i : ℤ)
    → lo ≤ℤ i
    → i +ℤ pos n ≤ℤ hi +ℤ pos 1
    → All (IsOnCurve active) (weights_from (curve_weight lo hi active) n i)
      × (map reflect (weights_from (curve_weight lo hi active) n i)
          ≡ weights_from (bid_ask_weight lo hi active) n i)
unfolding weights_from
loop_reflect lo hi active zero i above below = (tt, refl)
loop_reflect lo hi active (suc n) i above below =
    let (bounds, mirror) = weights_Mirror lo hi active i above (omega (int_laws, below)) in
    let (rest, reflected) =
      loop_reflect lo hi active n (i +ℤ pos 1) (omega (int_laws, above))
        (omega (int_laws, below)) in
    let other : pos 2200 -ℤ curve_weight lo hi active i ≡ bid_ask_weight lo hi active i =
      omega (int_laws, parts_of_eq _ _ mirror) in
    (((bounds, λ e. curve_weight_active lo hi active i e), rest), rw (other, reflected) refl)

-- For an active bin inside the range, `toWeightCurve` and `toWeightBidAsk` return weights for exactly
-- the bins of the range, in order. The weights of the curve lie between 200 and 2000, with 2000 at
-- the active bin, and each weight of bid-ask is 2200 less the weight of the curve.
pub to_weight_curve-to_weight_bid_ask :
    (lo hi active : ℤ)
    → lo ≤ℤ active
    → active ≤ℤ hi
    → (curve : List BinWeight) × (to_weight_curve lo hi active ≡ ok curve)
      × (to_weight_bid_ask lo hi active ≡ ok (map reflect curve))
      × (weight_ids curve ≡ bin_range_to_bin_id_array lo hi)
      × All (IsOnCurve active) curve
unfolding to_weight_curve to_weight_bid_ask bin_range_to_bin_id_array
to_weight_curve-to_weight_bid_ask lo hi active above below =
    let n = ids_from_to lo hi in
    let start : ltb_ℤ active lo ≡ false = le→ltb-false _ _ above in
    let end : ltb_ℤ hi active ≡ false = le→ltb-false _ _ below in
    let (weights, reflected) =
      loop_reflect lo hi active n lo (omega arith) (omega (int_laws, above, below)) in
    (
      weights_from (curve_weight lo hi active) n lo,
      rw (start, end) refl,
      rw (start, end) (ap ok (sym reflected)),
      weights_from-ids _ n lo,
      weights,
    )
