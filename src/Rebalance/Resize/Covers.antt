-- ===== src/Rebalance/Resize/Covers.antt =====
-- rebalancePosition.ts, `_simulateResize`: the new range and its bins.
use dlmm_sdk.Prelude.{
  ℕ, zero, suc, ◌+◌, ◌≡◌, refl, ap, ◌∙◌, arith, ◌⊎◌, inl, inr, Bool, true, false, Option, none,
  some, List, [], ◌∷◌, ◌++◌, All, Bool-cases, if◌then◌else◌, leb→le, leb-false→lt, ltb-false→le,
}
use dlmm_sdk.Prelude.Int.{
  ℤ, pos, pos_part, neg_part, ◌+ℤ◌, ◌-ℤ◌, ◌≤ℤ◌, ◌<ℤ◌, int_laws, parts_of_eq, ltb_ℤ, leb_ℤ, ltb_ℤ→lt,
  min_ℤ, parts_exclusive,
}
use dlmm_sdk.Positions.{ids_from_to, indexes_from}
use dlmm_sdk.Rebalance.{RebalancePositionBinData, RebalancePosition, bin_range_to_bin_id_array}
use dlmm_sdk.Rebalance.Totals.{bin_ids}
use dlmm_sdk.Rebalance.Conserved.{HasRange}
use dlmm_sdk.Rebalance.Amounts.Bins.{indexes_from-split}
use dlmm_sdk.Rebalance.Resize.{
  is_bin_empty, lower_of, upper_of, min_max_loop, find_min_max_bin_id_with_liquidity, min_with,
  max_ℤ, max_with, resize_lower, resize_upper, simulate_resize,
}
use dlmm_sdk.Rebalance.Resize.Range.{
  unshift_bins-ids, push_bins-ids, shift_bins-ids, pop_bins-ids, tail_eq, head_eq,
}

module _ (lo hi : ℤ) where
  -- A bound that was found lies within the range.
  abbrev IsWithin : Option ℤ → Type 0
  IsWithin none = Unit
  IsWithin (some b) = (lo ≤ℤ b) × (b ≤ℤ hi)

  lower_of-IsWithin :
      (found : Option ℤ) (b : ℤ) → IsWithin found → IsWithin (some b) → IsWithin (lower_of found b)
  lower_of-IsWithin none b _ w = w
  lower_of-IsWithin (some a) b v w = elim (Bool-cases (ltb_ℤ b a)) [
    | inl h ↦ rw h w
    | inr h ↦ rw h v
  ]

  upper_of-IsWithin :
      (found : Option ℤ) (b : ℤ) → IsWithin found → IsWithin (some b) → IsWithin (upper_of found b)
  upper_of-IsWithin none b _ w = w
  upper_of-IsWithin (some a) b v w = elim (Bool-cases (ltb_ℤ a b)) [
    | inl h ↦ rw h w
    | inr h ↦ rw h v
  ]

  either-IsWithin :
      (test : Bool) (found next : Option ℤ × Option ℤ)
      → IsWithin found.0
      → IsWithin found.1
      → IsWithin next.0
      → IsWithin next.1
      → IsWithin (if test then found else next).0 × IsWithin (if test then found else next).1
  either-IsWithin true found next l u _ _ = (l, u)
  either-IsWithin false found next _ _ l u = (l, u)

  min_max_loop-IsWithin :
      (found : Option ℤ × Option ℤ) (bins : List RebalancePositionBinData)
      → IsWithin found.0
      → IsWithin found.1
      → All (λ b. IsWithin (some b.bin_id)) bins
      → IsWithin (min_max_loop found bins).0 × IsWithin (min_max_loop found bins).1
  unfolding min_max_loop
  min_max_loop-IsWithin found [] l u _ = (l, u)
  min_max_loop-IsWithin found (b ∷ bins) l u (w, ws) =
      let next : Option ℤ × Option ℤ = (lower_of found.0 b.bin_id, upper_of found.1 b.bin_id) in
      let (l', u') =
        either-IsWithin (is_bin_empty b) found next l u (lower_of-IsWithin found.0 b.bin_id l w)
          (upper_of-IsWithin found.1 b.bin_id u w) in
      min_max_loop-IsWithin (if is_bin_empty b then found else next) bins l' u' ws

  ids-IsWithin :
      (k : ℕ) (a : ℤ) (bins : List RebalancePositionBinData)
      → bin_ids bins ≡ indexes_from k a
      → lo ≤ℤ a
      → a +ℤ pos k ≤ℤ hi +ℤ pos 1
      → All (λ b. IsWithin (some b.bin_id)) bins
  unfolding indexes_from
  ids-IsWithin k a [] h l u = tt
  ids-IsWithin zero a (b ∷ bins) h l u = grind (arith, h)
  ids-IsWithin (suc k) a (b ∷ bins) h l u =
      let own : b.bin_id ≡ a = head_eq b.bin_id a _ _ h in
      let p = parts_of_eq _ _ own in
      (
        (omega (int_laws, l, p), omega (int_laws, u, p)),
        ids-IsWithin k (a +ℤ pos 1) bins (tail_eq b.bin_id a _ _ h) (omega (int_laws, l))
            (omega (int_laws, u)),
      )

  min_with-bounds :
      (a : ℤ) (found : Option ℤ)
      → IsWithin found
      → (min_with a found ≤ℤ a) × ((min_with a found ≡ a) ⊎ (lo ≤ℤ min_with a found))
  unfolding min_ℤ
  min_with-bounds a none _ = (omega arith, inl refl)
  min_with-bounds a (some b) (l, u) = elim (Bool-cases (leb_ℤ a b)) [
    | inl h ↦ rw h (omega arith, inl refl)
    | inr h ↦
        let lt : b <ℤ a = leb-false→lt (pos_part a + neg_part b) (pos_part b + neg_part a) h in
        rw h (omega (arith, lt), inr l)
  ]

  max_with-bounds : (a : ℤ) (found : Option ℤ) → a ≤ℤ max_with a found
  unfolding max_ℤ
  max_with-bounds a none = omega arith
  max_with-bounds a (some b) = elim (Bool-cases (leb_ℤ a b)) [
    | inl h ↦ rw h (leb→le (pos_part a + neg_part b) (pos_part b + neg_part a) h)
    | inr h ↦ rw h (omega arith)
  ]

resize_lower-ids :
    (lo hi dmin new : ℤ) (bins : List RebalancePositionBinData)
    → bin_ids bins ≡ indexes_from (ids_from_to lo hi) lo
    → lo ≤ℤ hi
    → new ≤ℤ hi +ℤ pos 1
    → (new ≡ dmin) ⊎ (lo ≤ℤ new)
    → bin_ids (resize_lower lo dmin new bins) ≡ indexes_from (ids_from_to new hi) new
unfolding resize_lower
resize_lower-ids lo hi dmin new bins ids range reach from = elim (Bool-cases (ltb_ℤ new lo)) [
  | inl h ↦
      let lt = ltb_ℤ→lt new lo h in
      let same : pos_part new + neg_part dmin ≡ pos_part dmin + neg_part new = elim from [
        | inl e ↦ parts_of_eq new dmin e
        | inr above ↦ omega (arith, lt, above)
      ] in
      let n = pos_part (lo -ℤ dmin) in
      let fits : new +ℤ pos n ≡ lo -ℤ pos 1 +ℤ pos 1 =
        omega (int_laws, lt, same, parts_exclusive (lo -ℤ dmin)) in
      let all : ids_from_to new hi ≡ n + ids_from_to lo hi =
        omega (int_laws, lt, same, range, parts_exclusive (lo -ℤ dmin)) in
      let meet : lo ≡ new +ℤ pos n = omega (int_laws, lt, same, parts_exclusive (lo -ℤ dmin)) in
      rw h (
        unshift_bins-ids n (lo -ℤ pos 1) new bins fits
        ∙ ap (λ (js : List ℤ). indexes_from n new ++ js) ids
        ∙ indexes_from-split n (ids_from_to lo hi) (ids_from_to new hi) new lo all meet)
  | inr h ↦
      let le : lo ≤ℤ new =
        ltb-false→le (pos_part new + neg_part lo) (pos_part lo + neg_part new) h in
      let n = pos_part (new -ℤ lo) in
      let all : ids_from_to lo hi ≡ n + ids_from_to new hi =
        omega (int_laws, le, reach, range, parts_exclusive (new -ℤ lo)) in
      let meet : new ≡ lo +ℤ pos n = omega (int_laws, le, parts_exclusive (new -ℤ lo)) in
      rw h (shift_bins-ids n (ids_from_to lo hi) (ids_from_to new hi) lo new bins all meet ids)
]

resize_upper-ids :
    (lo hi new : ℤ) (bins : List RebalancePositionBinData)
    → bin_ids bins ≡ indexes_from (ids_from_to lo hi) lo
    → lo ≤ℤ hi +ℤ pos 1
    → lo ≤ℤ new
    → bin_ids (resize_upper hi new bins) ≡ indexes_from (ids_from_to lo new) lo
unfolding resize_upper
resize_upper-ids lo hi new bins ids range reach = elim (Bool-cases (ltb_ℤ hi new)) [
  | inl h ↦
      let lt = ltb_ℤ→lt hi new h in
      let n = pos_part (new -ℤ hi) in
      let all : ids_from_to lo new ≡ ids_from_to lo hi + n =
        omega (int_laws, lt, range, parts_exclusive (new -ℤ hi)) in
      let meet : hi +ℤ pos 1 ≡ lo +ℤ pos (ids_from_to lo hi) = omega (int_laws, range) in
      rw h (
        push_bins-ids n (hi +ℤ pos 1) bins
        ∙ ap (λ (js : List ℤ). js ++ indexes_from n (hi +ℤ pos 1)) ids
        ∙ indexes_from-split (ids_from_to lo hi) n (ids_from_to lo new) lo (hi +ℤ pos 1) all meet)
  | inr h ↦
      let le : new ≤ℤ hi =
        ltb-false→le (pos_part hi + neg_part new) (pos_part new + neg_part hi) h in
      let n = pos_part (hi -ℤ new) in
      let all : ids_from_to lo hi ≡ n + ids_from_to lo new =
        omega (int_laws, le, reach, parts_exclusive (hi -ℤ new)) in
      rw h (pop_bins-ids n (ids_from_to lo hi) (ids_from_to lo new) lo bins all ids)
]

-- For a position whose bins are those from its lower to its upper id, and a deposit over a range that
-- is not empty and begins at most one bin above the position, the resize gives a position whose bins
-- are those from its new lower to its new upper id, and that covers the deposit.
pub simulate_resize-HasRange :
    (p : RebalancePosition) (dmin dmax : ℤ)
    → HasRange p
    → p.lower_bin_id ≤ℤ p.upper_bin_id
    → dmin ≤ℤ dmax
    → dmin ≤ℤ p.upper_bin_id +ℤ pos 1
    → HasRange (simulate_resize p dmin dmax)
      × ((simulate_resize p dmin dmax).lower_bin_id ≤ℤ dmin)
      × (dmax ≤ℤ (simulate_resize p dmin dmax).upper_bin_id)
unfolding simulate_resize bin_range_to_bin_id_array find_min_max_bin_id_with_liquidity
simulate_resize-HasRange p dmin dmax ids range order reach =
    let lo = p.lower_bin_id in
    let hi = p.upper_bin_id in
    let bins = p.rebalance_position_bin_data in
    let found = min_max_loop (none, none) bins in
    let within =
      min_max_loop-IsWithin lo hi (none, none) bins tt tt
        (ids-IsWithin lo hi (ids_from_to lo hi) lo bins ids (omega arith)
          (omega (int_laws, range))) in
    let new_min = min_with dmin found.0 in
    let new_max = max_with dmax found.1 in
    let (below, from) = min_with-bounds lo hi dmin found.0 within.0 in
    let above = max_with-bounds lo hi dmax found.1 in
    let reach' : new_min ≤ℤ hi +ℤ pos 1 = omega (arith, below, reach) in
    let lower_ids = resize_lower-ids lo hi dmin new_min bins ids range reach' from in
    (
      resize_upper-ids new_min hi new_max (resize_lower lo dmin new_min bins) lower_ids reach'
          (omega (arith, below, above, order)),
      below,
      above,
    )
