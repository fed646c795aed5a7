-- ===== src/Weights/Spot/Shares.antt =====
-- weight.ts, the sums of the shares of `calculateSpotDistribution`.
use native.Mathlib.Nat.{mul-add, div-add-mod', div-mul-le_self, zero-mul}
use dlmm_sdk.Prelude.{
  ℕ, ◌+◌, ◌-◌, ◌*◌, ◌/◌, ◌%◌, ◌≤◌, ◌≡◌, refl, ap, ◌∙◌, arith, Bool, true, false, if◌then◌else◌,
  List, [], ◌∷◌, map, length, ok, ltb, lt→ltb, le→ltb-false,
}
use dlmm_sdk.Prelude.Int.{ℤ, pos, ◌+ℤ◌, ◌-ℤ◌, ltb_ℤ, eqb_ℤ, ◌<ℤ◌, ◌≤ℤ◌, int_laws}
use dlmm_sdk.Weights.Spot.{
  BinShare, includes, count_of, side_bps, one_sided_share, two_sided_share,
  calculate_spot_distribution,
}

-- The sum of one field over the shares.
abbrev pub sum_shares : (BinShare → ℤ) → List BinShare → ℤ
sum_shares field [] = pos 0
sum_shares field (b ∷ shares) = field b +ℤ sum_shares field shares

side_fits : (n : ℕ) → side_bps n * n ≤ 10000
side_fits n = grind (arith, div-mul-le_self 20000 (2 * n + 1))

active_share : (n : ℕ) → pos 10000 -ℤ pos (side_bps n * n) ≡ pos (10000 - side_bps n * n)
active_share n = omega (int_laws, side_fits n)

-- How often an id stands in a list.
abbrev pub count_at : ℤ → List ℤ → ℕ
count_at a ids = count_of (λ i. eqb_ℤ i a) ids

abbrev one_if : Bool → ℕ
one_if test = if test then 1 else 0

-- The sum of shares that are `s` where one test holds and `a` where another does.
sum_shares-map :
    (field : BinShare → ℤ) (share : ℤ → BinShare) (s a : ℕ) (p q : ℤ → Bool)
    → ((i : ℤ) → field (share i) ≡ pos (s * one_if (p i) + a * one_if (q i)))
    → (ids : List ℤ)
    → sum_shares field (map share ids) ≡ pos (s * count_of p ids + a * count_of q ids)
unfolding count_of
sum_shares-map field share s a p q each [] = ground arith
sum_shares-map field share s a p q each (i ∷ ids) =
    rw (each i, sum_shares-map field share s a p q each ids)
      (omega (
        int_laws,
        mul-add s (one_if (p i)) (count_of p ids),
        mul-add a (one_if (q i)) (count_of q ids),
      ))

module _ (active : ℤ) (y_count x_count : ℕ) where
  share_y :
      (i : ℤ)
      → (two_sided_share active y_count x_count i).y_amount_bps_of_total
        ≡ pos (
            side_bps y_count * one_if (ltb_ℤ i active)
            + (10000 - side_bps y_count * y_count) * one_if (eqb_ℤ i active))
  unfolding two_sided_share
  share_y i = ground (arith, active_share y_count)

  share_x :
      (i : ℤ)
      → (two_sided_share active y_count x_count i).x_amount_bps_of_total
        ≡ pos (
            side_bps x_count * one_if (ltb_ℤ active i)
            + (10000 - side_bps x_count * x_count) * one_if (eqb_ℤ i active))
  unfolding two_sided_share
  share_x i = ground (arith, active_share x_count)

one_sided_sum :
    (field : BinShare → ℤ) (share : ℤ → BinShare) (s : ℕ)
    → ((i : ℤ) → field (share i) ≡ pos s)
    → (ids : List ℤ) → sum_shares field (map share ids) ≡ pos (s * length ids)
one_sided_sum field share s each [] = ground arith
one_sided_sum field share s each (i ∷ ids) =
    rw (each i, one_sided_sum field share s each ids) (omega (int_laws, mul-add s 1 (length ids)))

includes-of_count :
    (a : ℤ) (ids : List ℤ) (b : Bool) → (ltb 0 (count_at a ids) ≡ b) → includes ids a ≡ b
unfolding count_of includes
includes-of_count a [] b h = ground arith
includes-of_count a (i ∷ ids) b h = ground (arith, includes-of_count a ids (ltb 0 (count_at a ids)))

share_ids :
    (share : ℤ → BinShare)
    → ((i : ℤ) → (share i).bin_id ≡ i)
    → (ids : List ℤ) → map (λ b. b.bin_id) (map share ids) ≡ ids
share_ids share each [] = refl
share_ids share each (i ∷ ids) = rw (each i, share_ids share each ids) refl

two_sided_id :
    (active : ℤ) (y_count x_count : ℕ) (i : ℤ)
    → (two_sided_share active y_count x_count i).bin_id ≡ i
unfolding two_sided_share
two_sided_id active y_count x_count i = ground arith

empty : (a : ℤ) → count_at a [] ≡ 1 → ⊥
unfolding count_of
empty a h = omega arith

-- One active bin makes up for what the other bins leave.
whole :
    (n : ℕ) (ids : List ℤ) (a : ℤ)
    → count_at a ids ≡ 1
    → side_bps n * n + (10000 - side_bps n * n) * count_at a ids ≡ 10000
whole n ids a h =
    let e : (10000 - side_bps n * n) * count_at a ids ≡ (10000 - side_bps n * n) * 1 =
      ap (λ (k : ℕ). (10000 - side_bps n * n) * k) h in
    omega (arith, e, side_fits n)

-- For a list of ids in which the active bin stands once, `calculateSpotDistribution` returns one share
-- for each id, in order, and both the shares of X and the shares of Y add up to 10000.
pub calculate_spot_distribution-two_sided :
    (active : ℤ) (ids : List ℤ)
    → count_at active ids ≡ 1
    → (shares : List BinShare) × (calculate_spot_distribution active ids ≡ ok shares)
      × (map (λ b. b.bin_id) shares ≡ ids)
      × (sum_shares (λ b. b.x_amount_bps_of_total) shares ≡ pos 10000)
      × (sum_shares (λ b. b.y_amount_bps_of_total) shares ≡ pos 10000)
unfolding calculate_spot_distribution
calculate_spot_distribution-two_sided active [] h = absurd (empty active h)
calculate_spot_distribution-two_sided active (first ∷ ids) h =
    let bin_ids = first ∷ ids in
    let y_count = count_of (λ i. ltb_ℤ i active) bin_ids in
    let x_count = count_of (λ i. ltb_ℤ active i) bin_ids in
    let among = includes-of_count active bin_ids true (rw h refl) in
    (
      map (two_sided_share active y_count x_count) bin_ids,
      rw among refl,
      share_ids _ (two_sided_id active y_count x_count) bin_ids,
      sum_shares-map (λ b. b.x_amount_bps_of_total) _ (side_bps x_count)
            (10000 - side_bps x_count * x_count) (λ i. ltb_ℤ active i) (λ i. eqb_ℤ i active)
            (share_x active y_count x_count) bin_ids
          ∙ ap pos (whole x_count bin_ids active h),
      sum_shares-map (λ b. b.y_amount_bps_of_total) _ (side_bps y_count)
            (10000 - side_bps y_count * y_count) (λ i. ltb_ℤ i active) (λ i. eqb_ℤ i active)
            (share_y active y_count x_count) bin_ids
          ∙ ap pos (whole y_count bin_ids active h),
    )

-- The sums of the shares of both tokens.
abbrev pub Sums : List BinShare → (x y : ℕ) → Type 0
Sums shares x y =
    (sum_shares (λ b. b.x_amount_bps_of_total) shares ≡ pos x)
    × (sum_shares (λ b. b.y_amount_bps_of_total) shares ≡ pos y)

one_sided-Sums :
    (on_y : Bool) (n : ℕ) (ids : List ℤ)
    → n ≡ length ids
    → let sum = 10000 - 10000 % n in
      let shares = map (one_sided_share on_y (10000 / n)) ids in
      (on_y ≡ true → Sums shares 0 sum) × (on_y ≡ false → Sums shares sum 0)
unfolding one_sided_share
one_sided-Sums true n ids e =
    let all : 10000 / n * length ids ≡ 10000 - 10000 % n =
      rw (← e) (omega (arith, div-add-mod' 10000 n)) in
    (
      λ _. (
        one_sided_sum _ _ 0 (λ i. refl) ids ∙ ap pos (zero-mul (length ids)),
        one_sided_sum _ _ (10000 / n) (λ i. refl) ids ∙ ap pos all,
      ),
      λ c. cc,
    )
one_sided-Sums false n ids e =
    let all : 10000 / n * length ids ≡ 10000 - 10000 % n =
      rw (← e) (omega (arith, div-add-mod' 10000 n)) in
    (
      λ c. cc,
      λ _. (
        one_sided_sum _ _ (10000 / n) (λ i. refl) ids ∙ ap pos all,
        one_sided_sum _ _ 0 (λ i. refl) ids ∙ ap pos (zero-mul (length ids)),
      ),
    )

one_sided_id : (on_y : Bool) (dist : ℕ) (i : ℤ) → (one_sided_share on_y dist i).bin_id ≡ i
unfolding one_sided_share
one_sided_id on_y dist i = refl

-- For a list of ids without the active bin, `calculateSpotDistribution` returns one share for each
-- id, in order. Where the first id is below the active bin all shares are of Y, and else of X; they
-- add up to 10000 less the remainder of 10000 by the number of bins.
pub calculate_spot_distribution-one_sided :
    (active first : ℤ) (ids : List ℤ)
    → count_at active (first ∷ ids) ≡ 0
    → let sum = 10000 - 10000 % length (first ∷ ids) in
      (shares : List BinShare) × (calculate_spot_distribution active (first ∷ ids) ≡ ok shares)
      × (map (λ b. b.bin_id) shares ≡ first ∷ ids)
      × (first <ℤ active → Sums shares 0 sum)
      × (active ≤ℤ first → Sums shares sum 0)
unfolding calculate_spot_distribution
calculate_spot_distribution-one_sided active first ids h =
    let bin_ids = first ∷ ids in
    let dist = 10000 / length bin_ids in
    let missing = includes-of_count active bin_ids false (rw h refl) in
    let (below, above) = one_sided-Sums (ltb_ℤ first active) (length bin_ids) bin_ids refl in
    (
      map (one_sided_share (ltb_ℤ first active) dist) bin_ids,
      rw missing refl,
      share_ids _ (one_sided_id (ltb_ℤ first active) dist) bin_ids,
      λ h'. below (lt→ltb _ _ h'),
      λ h'. above (le→ltb-false _ _ h'),
    )
