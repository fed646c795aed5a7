-- ===== src/Positions/Listing/Ids.antt =====
-- index.ts, `getBinsBetweenLowerAndUpperBound`: the ids between two bounds, picked from longer runs.
use dlmm_sdk.Prelude.{
  ℕ, zero, suc, ◌+◌, ◌-◌, ◌≡◌, refl, sym, ap, ◌∙◌, arith, inl, inr, true, false, ◌&&◌,
  if◌then◌else◌, Bool-cases, List, [], ◌∷◌, ◌++◌, append_nil, le→leb,
}
use dlmm_sdk.Prelude.Int.{ℤ, pos, pos_part, neg_part, ◌+ℤ◌, ◌≤ℤ◌, ◌<ℤ◌, leb_ℤ, int_laws}
use dlmm_sdk.Positions.{ids_from_to, indexes_from}
use dlmm_sdk.Rebalance.Amounts.Bins.{indexes_from-split}

-- The ids of a list that lie between the bounds.
unfoldable pub between : (lower upper : ℤ) → List ℤ → List ℤ
between lower upper [] = []
between lower upper (i ∷ ids) =
    let rest = between lower upper ids in if leb_ℤ lower i && leb_ℤ i upper then i ∷ rest else rest

leb_ℤ_lt : (a b : ℤ) → b <ℤ a → leb_ℤ a b ≡ false
leb_ℤ_lt a b h = ground (arith, h)

module _ (lower upper : ℤ) where
  pub between-append :
      (xs ys : List ℤ)
      → between lower upper (xs ++ ys) ≡ between lower upper xs ++ between lower upper ys
  unfolding between
  between-append [] ys = refl
  between-append (x ∷ xs) ys = elim (Bool-cases (leb_ℤ lower x && leb_ℤ x upper)) [
    | inl h ↦ rw h (ap (λ (ids : List ℤ). x ∷ ids) (between-append xs ys))
    | inr h ↦ rw h (between-append xs ys)
  ]

  between_below :
      (n : ℕ) (i : ℤ) → i +ℤ pos n ≤ℤ lower → between lower upper (indexes_from n i) ≡ []
  unfolding between indexes_from
  between_below zero i h = refl
  between_below (suc n) i h =
      let out : leb_ℤ lower i ≡ false = leb_ℤ_lt lower i (omega (int_laws, h)) in
      rw out (between_below n (i +ℤ pos 1) (omega (int_laws, h)))

  between_inside :
      (n : ℕ) (i : ℤ)
      → lower ≤ℤ i
      → i +ℤ pos n ≤ℤ upper +ℤ pos 1
      → between lower upper (indexes_from n i) ≡ indexes_from n i
  unfolding between indexes_from
  between_inside zero i above h = refl
  between_inside (suc n) i above h =
      let lo : leb_ℤ lower i ≡ true = le→leb _ _ above in
      let last : i ≤ℤ upper = omega (int_laws, h) in
      let hi : leb_ℤ i upper ≡ true = le→leb _ _ last in
      rw (lo, hi)
        (ap (λ (ids : List ℤ). i ∷ ids)
          (between_inside n (i +ℤ pos 1) (omega (int_laws, above)) (omega (int_laws, h))))

  between_above : (n : ℕ) (i : ℤ) → upper <ℤ i → between lower upper (indexes_from n i) ≡ []
  unfolding between indexes_from
  between_above zero i h = refl
  between_above (suc n) i h =
      let out : leb_ℤ i upper ≡ false = leb_ℤ_lt i upper h in
      elim (Bool-cases (leb_ℤ lower i)) [
        | inl e ↦ rw (e, out) (between_above n (i +ℤ pos 1) (omega (int_laws, h)))
        | inr e ↦ rw e (between_above n (i +ℤ pos 1) (omega (int_laws, h)))
      ]

  -- A run of ids that contains the range gives the ids of the range.
  pub between_run :
      (n : ℕ) (i : ℤ)
      → i ≤ℤ lower
      → lower ≤ℤ upper
      → upper <ℤ i +ℤ pos n
      → between lower upper (indexes_from n i) ≡ indexes_from (ids_from_to lower upper) lower
  between_run n i first order last =
      let before = pos_part lower + neg_part i - (pos_part i + neg_part lower) in
      let here = ids_from_to lower upper in
      let after = n - before - here in
      let next = lower +ℤ pos here in
      let start : lower ≡ i +ℤ pos before = omega (int_laws, first) in
      let run : indexes_from before i ++ (indexes_from here lower ++ indexes_from after next)
          ≡ indexes_from n i =
        ap (λ (ids : List ℤ). indexes_from before i ++ ids)
          (indexes_from-split here after (here + after) lower next refl refl)
        ∙ indexes_from-split before (here + after) n i lower (omega (int_laws, first, order, last))
            start in
      let ends : next ≤ℤ upper +ℤ pos 1 = omega (int_laws, order) in
      let over : upper <ℤ next = omega (int_laws, order) in
      ap (between lower upper) (sym run)
      ∙ between-append (indexes_from before i) _
      ∙ rw
          (
            between_below before i (omega (int_laws, first)),
            between-append (indexes_from here lower) (indexes_from after next),
            between_inside here lower (omega arith) ends,
            between_above after next over,
          )
          (append_nil _)
