-- ===== src/Weights/Strategy/Covers.antt =====
-- strategy.ts: results of `toAmountsBothSideByStrategy` that cover a range of bins, and their parts.
use dlmm_sdk.Prelude.{
  ℕ, ◌≡◌, refl, ap, ◌∙◌, arith, List, [], ◌∷◌, ◌++◌, All, All-append, Result, ok, err,
}
use dlmm_sdk.Prelude.Int.{ℤ, pos, ◌+ℤ◌, ◌<ℤ◌, ◌≤ℤ◌, int_laws, parts_of_eq}
use dlmm_sdk.Positions.{ids_from_to, indexes_from}
use dlmm_sdk.Rebalance.{bin_range_to_bin_id_array}
use dlmm_sdk.Rebalance.Amounts.Bins.{indexes_from-split}
use dlmm_sdk.Weights.{BinWeight}
use dlmm_sdk.Weights.Shapes.{weight_ids}
use dlmm_sdk.Weights.Amounts.{BinAmounts}
use dlmm_sdk.Weights.Amounts.Sides.{Zip, Gives, amounts_ids}
use dlmm_sdk.Weights.Strategy.{both_parts}

-- A result with the amounts of exactly the bins of a range, in order, that have a property.
abbrev pub Covers : (BinAmounts → Type 0) → (lo hi : ℤ) → Result (List BinAmounts) → Type 0
Covers P lo hi r =
    (amounts : List BinAmounts) × (r ≡ ok amounts)
    × (amounts_ids amounts ≡ bin_range_to_bin_id_array lo hi)
    × All P amounts

module _ (R : BinWeight → BinAmounts → Type 0) (Q : BinWeight → Type 0)
    (P : BinAmounts → Type 0) where
  Zip-ids :
      ((b : BinWeight) (a : BinAmounts) → R b a → a.bin_id ≡ b.bin_id)
      → (bins : List BinWeight) (amounts : List BinAmounts) → Zip R bins amounts
      → amounts_ids amounts ≡ weight_ids bins
  Zip-ids id [] [] z = refl
  Zip-ids id [] (a ∷ amounts) z = elim z [ ]
  Zip-ids id (b ∷ bins) [] z = elim z [ ]
  Zip-ids id (b ∷ bins) (a ∷ amounts) (r, z) = rw (id b a r, Zip-ids id bins amounts z) refl

  Zip-All :
      ((b : BinWeight) (a : BinAmounts) → Q b → R b a → P a)
      → (bins : List BinWeight) (amounts : List BinAmounts) → Zip R bins amounts
      → All Q bins
      → All P amounts
  Zip-All each [] [] z qs = tt
  Zip-All each [] (a ∷ amounts) z qs = elim z [ ]
  Zip-All each (b ∷ bins) [] z qs = elim z [ ]
  Zip-All each (b ∷ bins) (a ∷ amounts) (r, z) (q, qs) =
      (each b a q r, Zip-All each bins amounts z qs)

  pub Gives-Covers :
      ((b : BinWeight) (a : BinAmounts) → R b a → a.bin_id ≡ b.bin_id)
      → ((b : BinWeight) (a : BinAmounts) → Q b → R b a → P a)
      → (lo hi : ℤ) (bins : List BinWeight) (r : Result (List BinAmounts))
      → weight_ids bins ≡ bin_range_to_bin_id_array lo hi
      → All Q bins
      → Gives R bins r
      → Covers P lo hi r
  Gives-Covers id each lo hi bins (err e) ids qs g = elim g [ ]
  Gives-Covers id each lo hi bins (ok amounts) ids qs g =
      (amounts, refl, Zip-ids id bins amounts g ∙ ids, Zip-All each bins amounts g qs)

pub All-map :
    {P Q : BinWeight → Type 0}
    → ((b : BinWeight) → P b → Q b)
    → (bins : List BinWeight) → All P bins
    → All Q bins
All-map f [] ps = tt
All-map f (b ∷ bins) (p, ps) = (f b p, All-map f bins ps)

pub Covers-empty : (P : BinAmounts → Type 0) (lo hi : ℤ) → hi <ℤ lo → Covers P lo hi (ok [])
unfolding bin_range_to_bin_id_array indexes_from
Covers-empty P lo hi h =
    let none_left : 0 ≡ ids_from_to lo hi = omega (arith, h) in
    ([], refl, ap (λ (k : ℕ). indexes_from k lo) none_left, tt)

ids-append : (xs ys : List BinAmounts) → amounts_ids (xs ++ ys) ≡ amounts_ids xs ++ amounts_ids ys
ids-append [] ys = refl
ids-append (x ∷ xs) ys = ap (λ (ids : List ℤ). x.bin_id ∷ ids) (ids-append xs ys)

pub Covers-both_parts :
    (P : BinAmounts → Type 0) (lo m n hi : ℤ) (below above : Result (List BinAmounts))
    → lo ≤ℤ n
    → n ≤ℤ hi +ℤ pos 1
    → n ≡ m +ℤ pos 1
    → Covers P lo m below
    → Covers P n hi above
    → Covers P lo hi (both_parts below above)
unfolding bin_range_to_bin_id_array both_parts
Covers-both_parts P lo m n hi below above start end next (xs, ex, ix, ps) (ys, ey, iy, qs) =
    let split =
      indexes_from-split (ids_from_to lo m) (ids_from_to n hi) (ids_from_to lo hi) lo n
        (omega (int_laws, parts_of_eq _ _ next, start, end))
        (omega (int_laws, parts_of_eq _ _ next, start, end)) in
    (xs ++ ys, rw (ex, ey) refl, ids-append xs ys ∙ rw (ix, iy) split, All-append P xs ys ps qs)
