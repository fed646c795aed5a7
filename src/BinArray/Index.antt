-- ===== src/BinArray/Index.antt =====
-- binArray.ts, bin ids and the arrays and places of bins.
use dlmm_sdk.Prelude.{
  ℕ, ◌+◌, ◌-◌, ◌*◌, ◌≤◌, ◌<◌, ◌≡◌, ◌↔◌, true, arith, get_elem?, Bool-cases, inl, inr, leb→le,
  le→leb, &&_true,
}
use dlmm_sdk.Prelude.Int.{
  ℤ, pos, negsuc, pos_part, neg_part, ◌+ℤ◌, ◌-ℤ◌, ◌*ℤ◌, tdiv, tmod, int_laws, *ℤ_parts, eq_of_parts,
  parts_of_eq, ltb_ℤ, leb_ℤ,
}
use dlmm_sdk.Pair.{BinArray}
use dlmm_sdk.BinArray.{
  bin_id_to_bin_array_index, is_bin_id_within_bin_array, get_bin_from_bin_array,
}

-- The index is the quotient by 70, rounded down: 70 * index ≤ binId < 70 * index + 70.
pub bin_array_index_parts :
    (b : ℤ)
    → let i = bin_id_to_bin_array_index b in
      (70 * pos_part i + neg_part b ≤ pos_part b + 70 * neg_part i)
      × (pos_part b + 70 * neg_part i < 70 * pos_part i + neg_part b + 70)
unfolding bin_id_to_bin_array_index tdiv tmod ◌-ℤ◌
bin_array_index_parts (pos n) = ground arith
bin_array_index_parts (negsuc n) = ground arith

-- The first bin id of an array, in parts.
pub lower_parts :
    (i : ℤ) → pos_part (i *ℤ pos 70) + 70 * neg_part i ≡ neg_part (i *ℤ pos 70) + 70 * pos_part i
lower_parts i = omega (arith, *ℤ_parts i (pos 70))

within_parts :
    (b i : ℤ)
    → (is_bin_id_within_bin_array b i ≡ true) ↔ (
        (70 * pos_part i + neg_part b ≤ pos_part b + 70 * neg_part i)
        × (pos_part b + 70 * neg_part i < 70 * pos_part i + neg_part b + 70))
unfolding is_bin_id_within_bin_array
within_parts b i =
    let first = i *ℤ pos 70 in
    let last = first +ℤ pos 70 -ℤ pos 1 in
    (
      λ h.
          let both = &&_true (leb_ℤ first b) (leb_ℤ b last) h in
          let lo = leb→le (pos_part first + neg_part b) (pos_part b + neg_part first) both.0 in
          let hi = leb→le (pos_part b + neg_part last) (pos_part last + neg_part b) both.1 in
          (omega (int_laws, lo, lower_parts i), omega (int_laws, hi, lower_parts i)),
      λ q.
          let above : leb_ℤ first b ≡ true =
            le→leb (pos_part first + neg_part b) (pos_part b + neg_part first)
              (omega (int_laws, q.0, lower_parts i)) in
          let below : leb_ℤ b last ≡ true =
            le→leb (pos_part b + neg_part last) (pos_part last + neg_part b)
              (omega (int_laws, q.1, lower_parts i)) in
          rw (above, below),
    )

-- A bin id lies within the bounds of an array exactly when the array's index is the bin id's.
pub within_iff :
    (b i : ℤ) → (is_bin_id_within_bin_array b i ≡ true) ↔ (bin_id_to_bin_array_index b ≡ i)
within_iff b i = (
  λ h.
      let q = (within_parts b i).0 h in
      let own = bin_array_index_parts b in
      eq_of_parts (bin_id_to_bin_array_index b) i (omega (arith, own, q.0, q.1)),
  λ e. (within_parts b i).1 (rw e at (bin_array_index_parts b)),
)

-- Whatever its sign, a bin id is read at its distance from the first bin id of the array.
pub get_bin_from_bin_array_at :
    (b : ℤ) (arr : BinArray) (n : ℕ)
    → b ≡ arr.index *ℤ pos 70 +ℤ pos n
    → get_bin_from_bin_array b arr ≡ get_elem? arr.bins n
unfolding get_bin_from_bin_array
get_bin_from_bin_array_at b arr n e =
    let first = arr.index *ℤ pos 70 in
    let above : b -ℤ first ≡ pos n = omega (int_laws, parts_of_eq _ _ e) in
    let below : pos 70 -ℤ (first +ℤ pos 70 -ℤ pos 1 -ℤ b) -ℤ pos 1 ≡ pos n =
      omega (int_laws, parts_of_eq _ _ e) in
    rw (above, below) (elim (Bool-cases (ltb_ℤ (pos 0) b)) [ inl h ↦ rw h | inr h ↦ rw h ])

-- A bin id within the bounds of an array stands at one of its 70 places.
pub place_within :
    (b i : ℤ)
    → is_bin_id_within_bin_array b i ≡ true
    → (n : ℕ) × (n < 70) × (b ≡ i *ℤ pos 70 +ℤ pos n)
place_within b i h =
    let first = i *ℤ pos 70 in
    let q = (within_parts b i).0 h in
    let n = pos_part b + neg_part first - (pos_part first + neg_part b) in
    let lo = q.0 in
    let hi = q.1 in
    let fp = lower_parts i in
    let at : b ≡ first +ℤ pos n = omega (int_laws, lo, hi, fp) in
    (n, omega (int_laws, lo, hi, fp), at)
