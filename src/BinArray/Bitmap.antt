-- ===== src/BinArray/Bitmap.antt =====
-- binArray.ts, the bitmaps: bits of the words of an account, the highest and lowest bit, and
-- `findSetBit` over the extension.
pub mod Words
pub mod Scan
use dlmm_sdk.Prelude.{
  ℕ, zero, suc, ◌+◌, ◌-◌, ◌*◌, ◌/◌, ◌%◌, ◌^◌, Bool, true, false, leb, ◌==◌, ◌||◌, if◌then◌else◌,
  Option, none, some, List, [], ◌∷◌, get_elem?, Result, ok, err, Error, type_error, ◌>>=◌,
}
use dlmm_sdk.Prelude.Int.{ℤ, pos, negsuc, ◌+ℤ◌, ◌-ℤ◌, nat_abs, leb_ℤ, ltb_ℤ}
use dlmm_sdk.Prelude.Numbers.{testn}
use dlmm_sdk.Constants.{bin_array_bitmap_size, extension_binarray_bitmap_size}
use dlmm_sdk.Pair.{BinArrayBitmapExtension}

pub data BitmapType : Type 0 where
  u1024 u512 : BitmapType

unfoldable pub bits_of : BitmapType → ℕ
bits_of u1024 = 1024
bits_of u512 = 512

abbrev pub internal_bitmap_range : ℤ × ℤ
internal_bitmap_range = (negsuc 511, pos 511)

-- 512 * (12 + 1) bin arrays on each side.
abbrev pub extension_bitmap_range : ℤ × ℤ
extension_bitmap_range = (negsuc 6655, pos 6655)

unfoldable pub is_overflow_default_bin_array_bitmap : ℤ → Bool
is_overflow_default_bin_array_bitmap index =
    ltb_ℤ internal_bitmap_range.1 index || ltb_ℤ index internal_bitmap_range.0

-- The little-endian bytes of the words, read as one number.
unfoldable pub build_bitmap_from_u64_arrays : List ℕ → ℕ
build_bitmap_from_u64_arrays [] = 0
build_bitmap_from_u64_arrays (w ∷ ws) = w + 2 ^ 64 * build_bitmap_from_u64_arrays ws

-- The loop `for (i = highestIndex; i >= 0; i--)`, with `i + 1` rounds left.
unfoldable pub most_significant_loop : ℕ → ℕ → ℕ → Option ℕ
most_significant_loop number highest zero = none
most_significant_loop number highest (suc i) =
    if testn number i then some (highest - i) else most_significant_loop number highest i

unfoldable pub most_significant_bit : ℕ → ℕ → Option ℕ
unfolding most_significant_loop
most_significant_bit number bit_length =
    if number == 0 then none else most_significant_loop number (bit_length - 1) bit_length

-- The loop `for (i = 0; i < bitLength; i++)`, by the rounds left.
unfoldable pub least_significant_loop : ℕ → ℕ → ℕ → Option ℕ
least_significant_loop number zero i = none
least_significant_loop number (suc rounds) i =
    if testn number i then some i else least_significant_loop number rounds (i + 1)

unfoldable pub least_significant_bit : ℕ → ℕ → Option ℕ
unfolding least_significant_loop
least_significant_bit number bit_length =
    if number == 0 then none else least_significant_loop number bit_length 0

-- Bit `n % 512` of chunk `n / 512 - 1`; a chunk that is not there is `undefined`.
unfoldable pub chunk_bit : List (List ℕ) → ℕ → Result Bool
unfolding build_bitmap_from_u64_arrays
chunk_bit chunks n =
    if n / bin_array_bitmap_size == 0
    then err type_error
    else elim (get_elem? chunks (n / bin_array_bitmap_size - 1)) [
      | none ↦ err type_error
      | some words ↦ ok (testn (build_bitmap_from_u64_arrays words) (n % bin_array_bitmap_size))
    ]

-- The bit that one round of `findSetBit` reads; index -(n + 1) has the offsets of `n`.
unfoldable pub extension_bit : BinArrayBitmapExtension → ℤ → Result Bool
unfolding chunk_bit
extension_bit extension (pos n) =
    if n == 0 then err type_error else chunk_bit extension.positive_bin_array_bitmap n
extension_bit extension (negsuc n) = chunk_bit extension.negative_bin_array_bitmap n

-- The two loops of `findSetBit`, by the rounds left.
unfoldable pub find_up : BinArrayBitmapExtension → ℕ → ℤ → Result (Option ℤ)
find_up extension zero i = ok none
find_up extension (suc rounds) i =
    let rest = find_up extension rounds (i +ℤ pos 1) in
    do found ← extension_bit extension i; if found then ok (some i) else rest

unfoldable pub find_down : BinArrayBitmapExtension → ℕ → ℤ → Result (Option ℤ)
find_down extension zero i = ok none
find_down extension (suc rounds) i =
    let rest = find_down extension rounds (i -ℤ pos 1) in
    do found ← extension_bit extension i; if found then ok (some i) else rest

unfoldable pub find_set_bit : (start end : ℤ) → BinArrayBitmapExtension → Result (Option ℤ)
unfolding find_up find_down
find_set_bit start end extension =
    if leb_ℤ start end
    then find_up extension (nat_abs (end -ℤ start) + 1) start
    else find_down extension (nat_abs (start -ℤ end) + 1) start
