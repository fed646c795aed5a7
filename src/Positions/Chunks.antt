-- ===== src/Positions/Chunks.antt =====
-- positions/index.ts, the chunks of a range of bins, and `getPositionCount` of math.ts.
use mathlib.Core.Path.{subst}
use dlmm_sdk.Prelude.{
  ℕ, zero, suc, ◌+◌, ◌-◌, ◌≤◌, ◌<◌, ◌≡◌, ◌⊎◌, inl, inr, refl, sym, ◌∙◌, ◌/◌, length, arith, some,
  List, [], ◌∷◌, Bool-cases, leb→le, leb-false→lt,
}
use dlmm_sdk.Prelude.Int.{
  ℤ, pos, pos_part, neg_part, ◌+ℤ◌, ◌-ℤ◌, ◌≤ℤ◌, ◌<ℤ◌, leb_ℤ, int_laws, min_ℤ, min_ℤ-cases,
  parts_of_eq, tdiv,
}
use dlmm_sdk.Positions.{
  BinRange, ids_from_to, chunk_loop, get_position_count, chunk_bin_range,
  chunk_bin_range_into_extended_positions,
}

-- The chunks follow one another from a first bin to a last one; each has at least one bin, and has the
-- size unless it ends at the last bin, where it has no more.
pub Tiles : ℕ → ℤ → ℤ → List BinRange → Type 0
Tiles size first last [] = last <ℤ first
Tiles size first last ((lower, upper) ∷ rest) =
    (lower ≡ first)
    × (lower ≤ℤ upper)
    × (upper ≤ℤ last)
    × ((upper +ℤ pos 1 ≡ lower +ℤ pos size) ⊎ ((upper ≡ last) × (upper <ℤ lower +ℤ pos size)))
    × Tiles size (upper +ℤ pos 1) last rest

-- Beyond the last bin there are no chunks, wherever they would start.
Tiles-beyond :
    (size : ℕ) (first other last : ℤ) (chunks : List BinRange)
    → last <ℤ other
    → last <ℤ first
    → Tiles size first last chunks
    → Tiles size other last chunks
unfolding Tiles
Tiles-beyond size first other last [] past beyond tiles = past
Tiles-beyond size first other last ((lower, upper) ∷ rest) past beyond (at, le, inside, _, _) =
    let same : pos_part lower + neg_part first ≡ pos_part first + neg_part lower =
      parts_of_eq lower first at in
    absurd (omega (arith, same, le, inside, beyond))

-- A chunk that ends at the last bin, or before it with the full size.
Tiles-chunk :
    (size : ℕ) (start last : ℤ) (rest : List BinRange)
    → 0 < size
    → start ≤ℤ last
    → Tiles size (start +ℤ pos size) last rest
    → Tiles size start last ((start, min_ℤ (start +ℤ pos size -ℤ pos 1) last) ∷ rest)
unfolding Tiles
Tiles-chunk size start last rest h le tiles = elim (min_ℤ-cases (start +ℤ pos size -ℤ pos 1) last) [
  | inl (e, inside) ↦
      let next : start +ℤ pos size -ℤ pos 1 +ℤ pos 1 ≡ start +ℤ pos size = omega int_laws in
      rw e (
        refl,
        omega (int_laws, h),
        inside,
        inl next,
        subst (λ first. Tiles size first last rest) (sym next) tiles,
      )
  | inr (e, short) ↦ rw e (
    refl,
    le,
    omega arith,
    inr (refl, omega (int_laws, short)),
    Tiles-beyond size (start +ℤ pos size) (last +ℤ pos 1) last rest (omega int_laws)
        (omega (int_laws, short)) tiles,
  )
]

chunk_loop-Tiles :
    (size fuel : ℕ) (start last : ℤ)
    → 0 < size
    → ids_from_to start last < fuel
    → (chunks : List BinRange) × (chunk_loop size fuel start last ≡ some chunks)
      × Tiles size start last chunks
unfolding chunk_loop Tiles
chunk_loop-Tiles size zero start last h enough = elim enough [ ]
chunk_loop-Tiles size (suc fuel) start last h enough = elim (Bool-cases (leb_ℤ start last)) [
  | inl c ↦
      let le = leb→le (pos_part start + neg_part last) (pos_part last + neg_part start) c in
      let (chunks, run, tiles) =
        chunk_loop-Tiles size fuel (start +ℤ pos size) last h (omega (int_laws, h, enough, le)) in
      (
        (start, min_ℤ (start +ℤ pos size -ℤ pos 1) last) ∷ chunks,
        rw (c, run),
        Tiles-chunk size start last chunks h le tiles,
      )
  | inr c ↦
      ([], rw c, leb-false→lt (pos_part start + neg_part last) (pos_part last + neg_part start) c)
]

-- `chunkBinRange` ends, and its chunks are the range cut into pieces of 70 bins.
pub chunk_bin_range-Tiles :
    (min_bin_id max_bin_id : ℤ)
    → (chunks : List BinRange) × (chunk_bin_range min_bin_id max_bin_id ≡ some chunks)
      × Tiles 70 min_bin_id max_bin_id chunks
unfolding chunk_bin_range
chunk_bin_range-Tiles min_bin_id max_bin_id =
    chunk_loop-Tiles 70 (ids_from_to min_bin_id max_bin_id + 1) min_bin_id max_bin_id (omega arith)
      (omega arith)

-- `chunkBinRangeIntoExtendedPositions` ends, and its chunks are the range cut into pieces of 1400 bins.
pub chunk_bin_range_into_extended_positions-Tiles :
    (min_bin_id max_bin_id : ℤ)
    → (chunks : List BinRange) × (chunk_bin_range_into_extended_positions min_bin_id max_bin_id
        ≡ some chunks)
      × Tiles 1400 min_bin_id max_bin_id chunks
unfolding chunk_bin_range_into_extended_positions
chunk_bin_range_into_extended_positions-Tiles min_bin_id max_bin_id =
    chunk_loop-Tiles 1400 (ids_from_to min_bin_id max_bin_id + 1) min_bin_id max_bin_id
      (omega arith) (omega arith)

-- The number of chunks of 70 is the width over 70, rounded up.
Tiles-length :
    (first last : ℤ) (chunks : List BinRange)
    → Tiles 70 first last chunks
    → length chunks ≡ (ids_from_to first last + 69) / 70
unfolding Tiles
Tiles-length first last [] past = omega (arith, past)
Tiles-length first last ((lower, upper) ∷ rest) (at, le, inside, inl full, tiles) =
    let more = Tiles-length (upper +ℤ pos 1) last rest tiles in
    omega (
      int_laws,
      more,
      le,
      inside,
      parts_of_eq lower first at,
      parts_of_eq (upper +ℤ pos 1) (lower +ℤ pos 70) full,
    )
Tiles-length first last ((lower, upper) ∷ rest) (at, le, inside, inr (end, short), tiles) =
    let more = Tiles-length (upper +ℤ pos 1) last rest tiles in
    omega (int_laws, more, le, short, parts_of_eq lower first at, parts_of_eq upper last end)

some_injective : (a b : List BinRange) → some a ≡ some b → a ≡ b
some_injective a b h = cc

quotient : (w : ℕ) {n : ℕ} → n ≡ (w + 69) / 70 → 1 ≤ w → tdiv (pos (w - 1)) 70 +ℤ pos 1 ≡ pos n
unfolding tdiv
quotient w {n} e h = let up : (w - 1) / 70 + 1 ≡ n = omega (arith, e, h) in omega (int_laws, up)

-- For a range that is not empty, `getPositionCount` is the number of chunks of `chunkBinRange`.
pub get_position_count-chunk_bin_range :
    (min_bin_id max_bin_id : ℤ) (chunks : List BinRange)
    → min_bin_id ≤ℤ max_bin_id
    → chunk_bin_range min_bin_id max_bin_id ≡ some chunks
    → get_position_count min_bin_id max_bin_id ≡ pos (length chunks)
unfolding get_position_count
get_position_count-chunk_bin_range min_bin_id max_bin_id chunks le run =
    let (others, run', tiles) = chunk_bin_range-Tiles min_bin_id max_bin_id in
    let same : others ≡ chunks = some_injective others chunks (sym run' ∙ run) in
    let count =
      Tiles-length min_bin_id max_bin_id chunks
        (subst (Tiles 70 min_bin_id max_bin_id) same tiles) in
    let w = ids_from_to min_bin_id max_bin_id in
    let width : max_bin_id -ℤ min_bin_id ≡ pos (w - 1) = omega (int_laws, le) in
    rw width (quotient w count (omega (arith, le)))
