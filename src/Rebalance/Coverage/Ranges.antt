-- ===== src/Rebalance/Coverage/Ranges.antt =====
-- rebalancePosition.ts, the bin arrays of the ranges against those of `getBinArrayIndexesCoverage`.
use dlmm_sdk.Prelude.{
  ℕ, zero, suc, ◌+◌, ◌≤◌, ◌≡◌, refl, sym, ap, ◌∙◌, arith, inl, inr, true, false, some, List, [],
  ◌∷◌, All, map, ◌-◌, Bool-cases,
}
use dlmm_sdk.Prelude.Int.{ℤ, pos, pos_part, neg_part, ◌+ℤ◌, ◌≤ℤ◌, int_laws, parts_of_eq}
use dlmm_sdk.BinArray.{
  bin_id_to_bin_array_index, is_bin_id_within_bin_array, get_bin_array_lower_upper_bin_id,
}
use dlmm_sdk.BinArray.Index.{within_iff}
use dlmm_sdk.Positions.{BinRange, ids_from_to, indexes_from, get_bin_array_indexes_coverage}
use dlmm_sdk.Positions.Coverage.{index_monotone}
use dlmm_sdk.Rebalance.{RebalanceWithWithdraw, or_active}
use dlmm_sdk.Rebalance.Deposit.Simulate.{RebalanceAddLiquidityParam, add_ids}
use dlmm_sdk.Rebalance.Coverage.{
  cover_loop, cover_range, cover_removes, cover_adds, get_rebalance_bin_array_indexes,
}

cover_stop :
    (fuel : ℕ) (i b : ℤ) (keys : List ℤ)
    → is_bin_id_within_bin_array b i ≡ true
    → cover_loop (suc fuel) i b keys ≡ some (add_ids keys (i ∷ []))
unfolding cover_loop add_ids is_bin_id_within_bin_array get_bin_array_lower_upper_bin_id
cover_stop fuel i b keys h = rw h

cover_next :
    (fuel : ℕ) (i b : ℤ) (keys ids : List ℤ)
    → is_bin_id_within_bin_array b i ≡ false
    → cover_loop fuel (i +ℤ pos 1) b (add_ids keys (i ∷ [])) ≡ some ids
    → cover_loop (suc fuel) i b keys ≡ some ids
unfolding cover_loop add_ids is_bin_id_within_bin_array get_bin_array_lower_upper_bin_id
cover_next fuel i b keys ids h run = rw h run

cover_loop-adds :
    (n : ℕ) (i b : ℤ) (keys : List ℤ)
    → i +ℤ pos n ≡ bin_id_to_bin_array_index b
    → cover_loop (suc n) i b keys ≡ some (add_ids keys (indexes_from (suc n) i))
unfolding indexes_from add_ids
cover_loop-adds zero i b keys e =
    let own : bin_id_to_bin_array_index b ≡ i = sym e ∙ omega int_laws in
    cover_stop zero i b keys ((within_iff b i).1 own)
cover_loop-adds (suc n) i b keys e = elim (Bool-cases (is_bin_id_within_bin_array b i)) [
  | inl h ↦
      let away : 1 ≤ 0 = omega (int_laws, parts_of_eq _ _ (e ∙ (within_iff b i).0 h)) in
      elim away [ ]
  | inr h ↦
      let e' : i +ℤ pos 1 +ℤ pos n ≡ bin_id_to_bin_array_index b =
        omega (int_laws, parts_of_eq _ _ e) in
      cover_next (suc n) i b keys _ h (cover_loop-adds n (i +ℤ pos 1) b (add_ids keys (i ∷ [])) e')
]

-- A range of bins that is not empty.
abbrev pub IsOrdered : BinRange → Type 0
IsOrdered (a, b) = a ≤ℤ b

cover_range-adds :
    (a b : ℤ) (keys : List ℤ)
    → a ≤ℤ b
    → cover_range a b keys ≡ some (add_ids keys (get_bin_array_indexes_coverage a b))
unfolding cover_range get_bin_array_indexes_coverage
cover_range-adds a b keys h =
    let i = bin_id_to_bin_array_index a in
    let j = bin_id_to_bin_array_index b in
    let le : i ≤ℤ j = index_monotone a b h in
    let n = pos_part j + neg_part i - (pos_part i + neg_part j) in
    let count : ids_from_to i j ≡ suc n = omega (arith, le) in
    let at : i +ℤ pos n ≡ j = omega (int_laws, le) in
    ap (λ (k : ℕ). cover_loop k i b keys) count
    ∙ cover_loop-adds n i b keys at
    ∙ ap (λ (k : ℕ). some (add_ids keys (indexes_from k i))) (sym count)

-- The indexes that `getBinArrayIndexesCoverage` lists for each range, added one after the other.
abbrev pub listed : List BinRange → List ℤ → List ℤ
listed [] keys = keys
listed (r ∷ ranges) keys = listed ranges (add_ids keys (get_bin_array_indexes_coverage r.0 r.1))

abbrev pub remove_range : ℤ → RebalanceWithWithdraw → BinRange
remove_range active_id r = (or_active active_id r.min_bin_id, or_active active_id r.max_bin_id)

abbrev pub add_range : ℤ → RebalanceAddLiquidityParam → BinRange
add_range active_id a = (active_id +ℤ a.min_delta_id, active_id +ℤ a.max_delta_id)

cover_removes-listed :
    (active_id : ℤ) (removes : List RebalanceWithWithdraw) (keys : List ℤ)
    → All IsOrdered (map (remove_range active_id) removes)
    → cover_removes active_id removes keys
      ≡ some (listed (map (remove_range active_id) removes) keys)
unfolding cover_removes
cover_removes-listed active_id [] keys _ = refl
cover_removes-listed active_id (r ∷ removes) keys (o, os) =
    let (a, b) = remove_range active_id r in
    rw (cover_range-adds a b keys o) (cover_removes-listed active_id removes _ os)

cover_adds-listed :
    (active_id : ℤ) (adds : List RebalanceAddLiquidityParam) (keys : List ℤ)
    → All IsOrdered (map (add_range active_id) adds)
    → cover_adds active_id adds keys ≡ some (listed (map (add_range active_id) adds) keys)
unfolding cover_adds
cover_adds-listed active_id [] keys _ = refl
cover_adds-listed active_id (r ∷ adds) keys (o, os) =
    let (a, b) = add_range active_id r in
    rw (cover_range-adds a b keys o) (cover_adds-listed active_id adds _ os)

-- For ranges that are not empty, the loops end, and the bin arrays of a rebalance are those that
-- `getBinArrayIndexesCoverage` lists for the removals and then for the additions, each of them kept
-- once.
pub get_rebalance_bin_array_indexes-listed :
    (adds : List RebalanceAddLiquidityParam) (removes : List RebalanceWithWithdraw) (active_id : ℤ)
    → All IsOrdered (map (remove_range active_id) removes)
    → All IsOrdered (map (add_range active_id) adds)
    → get_rebalance_bin_array_indexes adds removes active_id
      ≡ some (
          listed
            (map (add_range active_id) adds)
            (listed (map (remove_range active_id) removes) []))
unfolding get_rebalance_bin_array_indexes
get_rebalance_bin_array_indexes-listed adds removes active_id r a =
    rw (cover_removes-listed active_id removes [] r) (cover_adds-listed active_id adds _ a)
