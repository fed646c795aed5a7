-- ===== src/BinArray/Search/Bits.antt =====
-- Which bin arrays hold liquidity: the bit of an index in the words of the accounts, read without
-- the loops, and the shape of the accounts.
use dlmm_sdk.Prelude.{
  ℕ, zero, suc, ◌+◌, ◌-◌, ◌/◌, ◌%◌, ◌≤◌, ◌<◌, ◌≡◌, arith, Bool, true, false, ltb, leb, leb→le,
  leb-false→lt, ◌==◌, if◌then◌else◌, Option, none, some, List, [], ◌∷◌, get_elem?, get_elem?-none,
  length, All, ok, refl, Bool-cases, inl, inr,
}
use dlmm_sdk.Prelude.Int.{ℤ, pos, negsuc, ◌-ℤ◌, int_laws}
use dlmm_sdk.Prelude.Numbers.{testn}
use dlmm_sdk.Pair.{LbPair, BinArrayBitmapExtension}
use dlmm_sdk.BinArray.Bitmap.{chunk_bit, extension_bit, build_bitmap_from_u64_arrays}
use dlmm_sdk.BinArray.Bitmap.Words.{AreWords, word_bit, testn-build}

abbrev pub bit_in_chunk : Option (List ℕ) → ℕ → Bool
bit_in_chunk none i = false
bit_in_chunk (some words) i = word_bit words i

-- A place within 512 is in the words of the pair; the others are in the chunks of their side.
unfoldable pub has_liquidity : LbPair → BinArrayBitmapExtension → ℤ → Bool
has_liquidity pair extension (pos n) =
    if ltb n 512
    then word_bit pair.bin_array_bitmap (512 + n)
    else bit_in_chunk (get_elem? extension.positive_bin_array_bitmap (n / 512 - 1)) (n % 512)
has_liquidity pair extension (negsuc n) =
    if ltb n 512
    then word_bit pair.bin_array_bitmap (511 - n)
    else bit_in_chunk (get_elem? extension.negative_bin_array_bitmap (n / 512 - 1)) (n % 512)

-- Twelve chunks of words.
pub record AreChunks (chunks : List (List ℕ)) : Type 0 where
  pub twelve : length chunks ≡ 12
  pub words : All AreWords chunks

-- The accounts as the chain keeps them.
pub record IsWellFormed (pair : LbPair) (extension : BinArrayBitmapExtension) : Type 0 where
  pub sixteen : length pair.bin_array_bitmap ≡ 16
  pub words : AreWords pair.bin_array_bitmap
  pub positive : AreChunks extension.positive_bin_array_bitmap
  pub negative : AreChunks extension.negative_bin_array_bitmap

get_chunk :
    (chunks : List (List ℕ)) (i : ℕ)
    → All AreWords chunks
    → i < length chunks
    → (words : List ℕ) × (get_elem? chunks i ≡ some words) × AreWords words
get_chunk [] i _ h = elim h [ ]
get_chunk (c ∷ chunks) zero (p, _) h = (c, refl, p)
get_chunk (c ∷ chunks) (suc i) (_, p) h = get_chunk chunks i p (omega (arith, h))

chunk_bit_ok :
    (chunks : List (List ℕ)) (n : ℕ)
    → AreChunks chunks
    → 512 ≤ n
    → n ≤ 6655
    → chunk_bit chunks n ≡ ok (bit_in_chunk (get_elem? chunks (n / 512 - 1)) (n % 512))
unfolding chunk_bit
chunk_bit_ok chunks n c lo hi =
    let (words, at, p) = get_chunk chunks (n / 512 - 1) c.words (omega (arith, c.twelve)) in
    let inside : n / 512 == 0 ≡ false = ground arith in
    rw (inside, at, testn-build words p (n % 512))

unfoldable pub place : ℕ → ℤ
place o = pos o -ℤ pos 512

module _ (pair : LbPair) (extension : BinArrayBitmapExtension)
    (w : IsWellFormed pair extension) where
  pub extension_bit_pos :
      (n : ℕ)
      → 512 ≤ n
      → n ≤ 6655
      → extension_bit extension (pos n) ≡ ok (has_liquidity pair extension (pos n))
  unfolding extension_bit has_liquidity
  extension_bit_pos n lo hi =
      let far : ltb n 512 ≡ false = ground arith in
      let some_n : n == 0 ≡ false = ground arith in
      rw (some_n, far) (chunk_bit_ok extension.positive_bin_array_bitmap n w.positive lo hi)

  pub extension_bit_negsuc :
      (n : ℕ)
      → 512 ≤ n
      → n ≤ 6655
      → extension_bit extension (negsuc n) ≡ ok (has_liquidity pair extension (negsuc n))
  unfolding extension_bit has_liquidity
  extension_bit_negsuc n lo hi =
      let far : ltb n 512 ≡ false = ground arith in
      rw far (chunk_bit_ok extension.negative_bin_array_bitmap n w.negative lo hi)

  -- The bits of the default bitmap are the places from -512 on.
  pub has_liquidity-place :
      (o : ℕ)
      → o < 1024
      → testn (build_bitmap_from_u64_arrays pair.bin_array_bitmap) o
        ≡ has_liquidity pair extension (place o)
  unfolding has_liquidity place
  has_liquidity-place o h =
      let built = testn-build pair.bin_array_bitmap w.words o in
      elim (Bool-cases (leb 512 o)) [
        | inl c ↦
            let lo = leb→le 512 o c in
            let e : pos o -ℤ pos 512 ≡ pos (o - 512) = omega (int_laws, lo) in
            let near : ltb (o - 512) 512 ≡ true = ground arith in
            let back : 512 + (o - 512) ≡ o = omega (arith, lo) in rw (e, near, back) built
        | inr c ↦
            let hi = leb-false→lt 512 o c in
            let e : pos o -ℤ pos 512 ≡ negsuc (511 - o) = omega (int_laws, hi) in
            let near : ltb (511 - o) 512 ≡ true = ground arith in
            let back : 511 - (511 - o) ≡ o = omega (arith, hi) in rw (e, near, back) built
      ]

  -- There is nothing beyond the extension.
  pub beyond_pos : (n : ℕ) → 6656 ≤ n → has_liquidity pair extension (pos n) ≡ false
  unfolding has_liquidity
  beyond_pos n h =
      let far : ltb n 512 ≡ false = ground arith in
      let last =
        get_elem?-none extension.positive_bin_array_bitmap (n / 512 - 1)
          (omega (arith, w.positive.twelve, h)) in
      rw (far, last)

  pub beyond_negsuc : (n : ℕ) → 6656 ≤ n → has_liquidity pair extension (negsuc n) ≡ false
  unfolding has_liquidity
  beyond_negsuc n h =
      let far : ltb n 512 ≡ false = ground arith in
      let last =
        get_elem?-none extension.negative_bin_array_bitmap (n / 512 - 1)
          (omega (arith, w.negative.twelve, h)) in
      rw (far, last)
