-- ===== src/Positions/Listing/Entries.antt =====
-- index.ts, `getBinsBetweenLowerAndUpperBound`: the entries are the bins of the range, as
-- `getBinFromBinArray` reads them.
use dlmm_sdk.Prelude.{
  ℕ, zero, suc, ◌+◌, ◌*◌, ◌<◌, ◌≤◌, ◌≡◌, refl, sym, ap, ◌∙◌, arith, inl, inr, ◌&&◌, Bool-cases,
  Option, none, some, List, [], ◌∷◌, ◌++◌, length, get_elem?-some, All, All-append, Result, ok,
  ==→eq,
}
use dlmm_sdk.Prelude.Int.{ℤ, pos, ◌+ℤ◌, ◌*ℤ◌, ◌≤ℤ◌, ◌<ℤ◌, leb_ℤ, eqb_ℤ, eq_of_parts, int_laws}
use dlmm_sdk.Pair.{Bin, BinArray}
use dlmm_sdk.BinArray.{
  bin_id_to_bin_array_index, get_bin_array_lower_upper_bin_id, get_bin_from_bin_array,
}
use dlmm_sdk.BinArray.Index.{bin_array_index_parts, lower_parts, get_bin_from_bin_array_at}
use dlmm_sdk.BinArray.Search.{array_of_index}
use dlmm_sdk.Positions.{ids_from_to, indexes_from}
use dlmm_sdk.Positions.Coverage.{index_monotone}
use dlmm_sdk.Positions.Listing.{
  BinLiquidity, missing_bin, listed_bin, bin_entry, array_loop, arrays_loop,
  get_bins_between_lower_and_upper_bound,
}
use dlmm_sdk.Positions.Listing.Ids.{between, between_run, between-append}
use dlmm_sdk.Rebalance.Amounts.Bins.{indexes_from-split}

abbrev pub listed_ids : List BinLiquidity → List ℤ
listed_ids [] = []
listed_ids (b ∷ bins) = b.bin_id ∷ listed_ids bins

listed_ids-append :
    (xs ys : List BinLiquidity) → listed_ids (xs ++ ys) ≡ listed_ids xs ++ listed_ids ys
listed_ids-append [] ys = refl
listed_ids-append (x ∷ xs) ys = ap (λ (ids : List ℤ). x.bin_id ∷ ids) (listed_ids-append xs ys)

-- The entry of a bin of an array that may be missing.
abbrev pub IsEntryOf : Option BinArray → BinLiquidity → Type 0
IsEntryOf none e = e ≡ missing_bin e.bin_id
IsEntryOf (some arr) e =
    (b : Bin) × (get_bin_from_bin_array e.bin_id arr ≡ some b) × (e ≡ listed_bin e.bin_id b)

abbrev pub IsEntry : List BinArray → BinLiquidity → Type 0
IsEntry arrays e = IsEntryOf (array_of_index arrays (bin_id_to_bin_array_index e.bin_id)) e

-- A result with the entries of a list of bins.
abbrev pub Lists : List BinArray → List ℤ → Result (List BinLiquidity) → Type 0
Lists arrays ids r =
    (bins : List BinLiquidity) × (r ≡ ok bins) × (listed_ids bins ≡ ids) × All (IsEntry arrays) bins

-- The place and the bins of the array that is found, if one is.
abbrev IsAt : ℤ → Option BinArray → Type 0
IsAt k none = Unit
IsAt k (some arr) = (arr.index ≡ k) × (length arr.bins ≡ 70)

array_of_index-IsAt :
    (arrays : List BinArray) (k : ℤ)
    → All (λ a. length a.bins ≡ 70) arrays
    → IsAt k (array_of_index arrays k)
unfolding array_of_index
array_of_index-IsAt [] k h = tt
array_of_index-IsAt (a ∷ arrays) k (own, h) = elim (Bool-cases (eqb_ℤ a.index k)) [
  | inl e ↦ rw e (eq_of_parts _ _ (==→eq _ _ e), own)
  | inr e ↦ rw e (array_of_index-IsAt arrays k h)
]

index_of_place : (k : ℤ) (i : ℕ) → i < 70 → bin_id_to_bin_array_index (k *ℤ pos 70 +ℤ pos i) ≡ k
index_of_place k i h =
    let id = k *ℤ pos 70 +ℤ pos i in
    let own = bin_array_index_parts id in
    let first = lower_parts k in
    eq_of_parts (bin_id_to_bin_array_index id) k (omega (int_laws, own, first, h))

bin_entry_lem :
    (k : ℤ) (i : ℕ) (arr : Option BinArray)
    → i < 70
    → IsAt k arr
    → (e : BinLiquidity) × (bin_entry (k *ℤ pos 70 +ℤ pos i) i arr ≡ ok e)
      × (e.bin_id ≡ k *ℤ pos 70 +ℤ pos i)
      × IsEntryOf arr e
unfolding bin_entry
bin_entry_lem k i none h at = (_, refl, refl, refl)
bin_entry_lem k i (some arr) h (own, seventy) =
    let id = k *ℤ pos 70 +ℤ pos i in
    let (b, found) = get_elem?-some arr.bins i (omega (arith, seventy)) in
    let place : id ≡ arr.index *ℤ pos 70 +ℤ pos i =
      ap (λ (j : ℤ). j *ℤ pos 70 +ℤ pos i) (sym own) in
    (
      listed_bin id b,
      rw found refl,
      refl,
      (b, get_bin_from_bin_array_at id arr i place ∙ found, refl),
    )

module _ (arrays : List BinArray) (lo up k : ℤ)
    (seventy : All (λ a. length a.bins ≡ 70) arrays) where
  array_loop-Lists :
      (rounds i : ℕ)
      → i + rounds ≤ 70
      → Lists arrays
          (between lo up (indexes_from rounds (k *ℤ pos 70 +ℤ pos i)))
          (array_loop rounds i (k *ℤ pos 70) lo up (array_of_index arrays k))
  unfolding array_loop between indexes_from
  array_loop-Lists zero i h = ([], refl, refl, tt)
  array_loop-Lists (suc rounds) i h =
      let id = k *ℤ pos 70 +ℤ pos i in
      let next : k *ℤ pos 70 +ℤ pos (i + 1) ≡ id +ℤ pos 1 = omega int_laws in
      let (bins, e, ids, all) = array_loop-Lists rounds (i + 1) (omega (arith, h)) in
      let ids' : listed_ids bins ≡ between lo up (indexes_from rounds (id +ℤ pos 1)) =
        ids ∙ ap (λ (j : ℤ). between lo up (indexes_from rounds j)) next in
      elim (Bool-cases (leb_ℤ lo id && leb_ℤ id up)) [
        | inl here ↦
            let (b, entry, named, own) =
              bin_entry_lem k i (array_of_index arrays k) (omega (arith, h))
                (array_of_index-IsAt arrays k seventy) in
            let index : bin_id_to_bin_array_index b.bin_id ≡ k =
              ap bin_id_to_bin_array_index named ∙ index_of_place k i (omega (arith, h)) in
            rw here (b ∷ bins, rw (entry, e) refl, rw (named, ids') refl, (rw index own, all))
        | inr out ↦ rw out (bins, e, ids', all)
      ]

module _ (arrays : List BinArray) (lo up : ℤ) (seventy : All (λ a. length a.bins ≡ 70) arrays) where
  arrays_loop-Lists :
      (rounds : ℕ) (k : ℤ)
      → Lists arrays
          (between lo up (indexes_from (rounds * 70) (k *ℤ pos 70)))
          (arrays_loop rounds k lo up arrays)
  unfolding arrays_loop get_bin_array_lower_upper_bin_id between indexes_from
  arrays_loop-Lists zero k = ([], refl, refl, tt)
  arrays_loop-Lists (suc rounds) k =
      let (bins, e, ids, all) = array_loop-Lists arrays lo up k seventy 70 0 (omega arith) in
      let (more, e', ids', all') = arrays_loop-Lists rounds (k +ℤ pos 1) in
      let start : k *ℤ pos 70 +ℤ pos 0 ≡ k *ℤ pos 70 = omega int_laws in
      let next : (k +ℤ pos 1) *ℤ pos 70 ≡ k *ℤ pos 70 +ℤ pos 70 =
        omega (int_laws, lower_parts k, lower_parts (k +ℤ pos 1)) in
      let run =
        indexes_from-split 70 (rounds * 70) (suc rounds * 70) (k *ℤ pos 70) ((k +ℤ pos 1) *ℤ pos 70)
          (omega arith) next in
      (
        bins ++ more,
        rw (e, e') refl,
        listed_ids-append bins more
            ∙ rw (ids, ids', start) (sym (between-append lo up (indexes_from 70 (k *ℤ pos 70)) _))
            ∙ ap (between lo up) run,
        All-append (IsEntry arrays) bins more all all',
      )

-- When every array has its 70 bins, and the range is not empty, `getBinsBetweenLowerAndUpperBound`
-- does not throw, and lists exactly the bins of the range, in order and each once; each entry has what
-- `getBinFromBinArray` reads of its bin id in the array of that bin id, or zeros where the array is
-- missing.
pub get_bins_between_lower_and_upper_bound-Lists :
    (arrays : List BinArray) (lower upper : ℤ)
    → All (λ a. length a.bins ≡ 70) arrays
    → lower ≤ℤ upper
    → Lists arrays
        (indexes_from (ids_from_to lower upper) lower)
        (get_bins_between_lower_and_upper_bound lower upper arrays)
unfolding get_bins_between_lower_and_upper_bound
get_bins_between_lower_and_upper_bound-Lists arrays lower upper seventy order =
    let first = bin_id_to_bin_array_index lower in
    let last = bin_id_to_bin_array_index upper in
    let rounds = ids_from_to first last in
    let (bins, e, ids, all) = arrays_loop-Lists arrays lower upper seventy rounds first in
    let p = bin_array_index_parts lower in
    let q = bin_array_index_parts upper in
    let monotone : first ≤ℤ last = index_monotone lower upper order in
    let start : first *ℤ pos 70 ≤ℤ lower = omega (int_laws, p, lower_parts first) in
    let end : upper <ℤ first *ℤ pos 70 +ℤ pos (rounds * 70) =
      omega (int_laws, q, lower_parts first, monotone) in
    (bins, e, ids ∙ between_run lower upper (rounds * 70) (first *ℤ pos 70) start order end, all)
