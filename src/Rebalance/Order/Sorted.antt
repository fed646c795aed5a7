-- ===== src/Rebalance/Order/Sorted.antt =====
-- rebalancePosition.ts, the sorting of ranges and the test for overlaps, for any items with bounds.
use mathlib.Core.List.{Permᴰ}
use mathlib.Core.List.Permᴰ
use dlmm_sdk.Prelude.{
  ◌+◌, ◌≡◌, refl, ap, ◌∙◌, arith, inl, inr, true, List, [], ◌∷◌, All, Bool-cases, &&_true, ltb→lt,
  le→leb,
}
use dlmm_sdk.Prelude.Int.{ℤ, pos_part, neg_part, ltb_ℤ, leb_ℤ, ◌≤ℤ◌, ◌<ℤ◌}
use dlmm_sdk.Rebalance.Order.{insert_by, sort_by, are_apart_from, are_apart}

module _ {A : Type 0} (key : A → ℤ) where
  insert_by-Perm : (a : A) (bs : List A) → Permᴰ (a ∷ bs) (insert_by key a bs)
  unfolding insert_by
  insert_by-Perm a [] = Permᴰ.refl (a ∷ [])
  insert_by-Perm a (b ∷ bs) = elim (Bool-cases (leb_ℤ (key a) (key b))) [
    | inl h ↦ rw h (Permᴰ.refl (a ∷ b ∷ bs))
    | inr h ↦ rw h (Permᴰ.trans (Permᴰ.swap refl refl) (Permᴰ.cons refl (insert_by-Perm a bs)))
  ]

  -- Sorting gives the same items.
  pub sort_by-Perm : (xs : List A) → Permᴰ xs (sort_by key xs)
  unfolding sort_by
  sort_by-Perm [] = Permᴰ.nil
  sort_by-Perm (a ∷ xs) =
      Permᴰ.trans (Permᴰ.cons refl (sort_by-Perm xs)) (insert_by-Perm a (sort_by key xs))

  insert_by-All :
      (P : A → Type 0) (a : A) (bs : List A) → P a → All P bs → All P (insert_by key a bs)
  unfolding insert_by
  insert_by-All P a [] p _ = (p, tt)
  insert_by-All P a (b ∷ bs) p (q, qs) = elim (Bool-cases (leb_ℤ (key a) (key b))) [
    | inl h ↦ rw h (p, (q, qs))
    | inr h ↦ rw h (q, insert_by-All P a bs p qs)
  ]

  pub sort_by-All : (P : A → Type 0) (xs : List A) → All P xs → All P (sort_by key xs)
  unfolding sort_by
  sort_by-All P [] _ = tt
  sort_by-All P (a ∷ xs) (p, ps) = insert_by-All P a (sort_by key xs) p (sort_by-All P xs ps)

module _ {A : Type 0} (first last : A → ℤ) where
  -- Every item ends before every later one begins.
  abbrev pub AreApart : List A → Type 0
  AreApart [] = Unit
  AreApart (a ∷ xs) = All (λ b. last a <ℤ first b) xs × AreApart xs

  abbrev pub IsRange : A → Type 0
  IsRange a = first a ≤ℤ last a

  later :
      (a b : A) (cs : List A)
      → last a <ℤ first b
      → IsRange b
      → All (λ c. last b <ℤ first c) cs
      → All (λ c. last a <ℤ first c) cs
  later a b [] lt r _ = tt
  later a b (c ∷ cs) lt r (own, rest) = (omega (arith, lt, r, own), later a b cs lt r rest)

  apart_from :
      (a : A) (bs : List A)
      → are_apart_from first last a bs ≡ true
      → All IsRange bs
      → All (λ b. last a <ℤ first b) bs × AreApart bs
  unfolding are_apart_from
  apart_from a [] h _ = (tt, tt)
  apart_from a (b ∷ bs) h (r, rs) =
      let both = &&_true (ltb_ℤ (last a) (first b)) (are_apart_from first last b bs) h in
      let lt =
        ltb→lt (pos_part (last a) + neg_part (first b)) (pos_part (first b) + neg_part (last a))
          both.0 in
      let rest = apart_from b bs both.1 rs in ((lt, later a b bs lt r rest.0), rest)

  -- Ranges that are each apart from the next one are apart.
  pub are_apart-AreApart :
      (xs : List A) → are_apart first last xs ≡ true → All IsRange xs → AreApart xs
  are_apart-AreApart [] h _ = tt
  are_apart-AreApart (a ∷ xs) h (r, rs) = apart_from a xs h rs

  insert_first :
      (a : A) (bs : List A)
      → IsRange a
      → All (λ b. last a <ℤ first b) bs
      → insert_by first a bs ≡ a ∷ bs
  unfolding insert_by
  insert_first a [] r _ = refl
  insert_first a (b ∷ bs) r (lt, _) =
      let le : leb_ℤ (first a) (first b) ≡ true =
        le→leb (pos_part (first a) + neg_part (first b)) (pos_part (first b) + neg_part (first a))
          (omega (arith, r, lt)) in
      rw le

  -- Ranges that are apart are sorted.
  pub sort_by-AreApart : (xs : List A) → All IsRange xs → AreApart xs → sort_by first xs ≡ xs
  unfolding sort_by
  sort_by-AreApart [] _ _ = refl
  sort_by-AreApart (a ∷ xs) (r, rs) (lt, apart) =
      ap (λ (bs : List A). insert_by first a bs) (sort_by-AreApart xs rs apart)
      ∙ insert_first a xs r lt
