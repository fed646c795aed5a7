-- ===== src/Positions/Coverage.antt =====
-- positions/index.ts, `getBinArrayIndexesCoverage`: the indexes of the bins of a range.
use dlmm_sdk.Prelude.{ℕ, zero, suc, ◌+◌, ◌-◌, ◌<◌, ◌≡◌, ap, sym, ◌∙◌, arith, some, get_elem?}
use dlmm_sdk.Prelude.Int.{ℤ, pos, pos_part, neg_part, ◌+ℤ◌, ◌≤ℤ◌, int_laws}
use dlmm_sdk.BinArray.{bin_id_to_bin_array_index}
use dlmm_sdk.BinArray.Index.{bin_array_index_parts}
use dlmm_sdk.Positions.{ids_from_to, indexes_from, get_bin_array_indexes_coverage}

pub get_elem?-indexes_from :
    (rounds : ℕ) (i : ℤ) (n : ℕ)
    → n < rounds
    → get_elem? (indexes_from rounds i) n ≡ some (i +ℤ pos n)
unfolding indexes_from
get_elem?-indexes_from zero i n h = elim h [ ]
get_elem?-indexes_from (suc rounds) i zero h = let e : i ≡ i +ℤ pos 0 = omega int_laws in ap some e
get_elem?-indexes_from (suc rounds) i (suc n) h =
    let e : i +ℤ pos 1 +ℤ pos n ≡ i +ℤ pos (suc n) = omega int_laws in
    get_elem?-indexes_from rounds (i +ℤ pos 1) n (omega (arith, h)) ∙ ap some e

-- Indexes of bin arrays keep the order of bin ids.
pub index_monotone : (a b : ℤ) → a ≤ℤ b → bin_id_to_bin_array_index a ≤ℤ bin_id_to_bin_array_index b
index_monotone a b h =
    let p = bin_array_index_parts a in let q = bin_array_index_parts b in omega (arith, h, p, q)

-- The array of every bin of the range is in the list, at its distance from the first one.
pub get_bin_array_indexes_coverage-covers :
    (lower upper b : ℤ)
    → lower ≤ℤ b
    → b ≤ℤ upper
    → (n : ℕ) × (bin_id_to_bin_array_index b ≡ bin_id_to_bin_array_index lower +ℤ pos n)
      × (get_elem? (get_bin_array_indexes_coverage lower upper) n
          ≡ some (bin_id_to_bin_array_index b))
unfolding get_bin_array_indexes_coverage
get_bin_array_indexes_coverage-covers lower upper b above below =
    let first = bin_id_to_bin_array_index lower in
    let last = bin_id_to_bin_array_index upper in
    let i = bin_id_to_bin_array_index b in
    let lo : first ≤ℤ i = index_monotone lower b above in
    let hi : i ≤ℤ last = index_monotone b upper below in
    let n = pos_part i + neg_part first - (pos_part first + neg_part i) in
    let at : i ≡ first +ℤ pos n = omega (int_laws, lo) in
    (
      n,
      at,
      get_elem?-indexes_from (ids_from_to first last) first n (omega (arith, lo, hi))
          ∙ ap some (sym at),
    )
