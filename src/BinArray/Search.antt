-- ===== src/BinArray/Search.antt =====
-- binArray.ts, `findNextBinArrayIndexWithLiquidity` and `findNextBinArrayWithLiquidity`.
pub mod Bits
pub mod Step
pub mod Far
pub mod Nearest
use dlmm_sdk.Prelude.{
  ℕ, zero, suc, ◌+◌, ◌-◌, ◌*◌, ◌/◌, ◌^◌, Bool, true, false, if◌then◌else◌, Option, none, some, List,
  [], ◌∷◌, Result, ok, err, ◌>>=◌, Fueled,
}
use dlmm_sdk.Prelude.Int.{ℤ, pos, negsuc, ◌+ℤ◌, ◌-ℤ◌, nat_abs, is_neg, eqb_ℤ}
use dlmm_sdk.Constants.{bin_array_bitmap_size}
use dlmm_sdk.Pair.{LbPair, BinArrayBitmapExtension, BinArray}
use dlmm_sdk.BinArray.{bin_id_to_bin_array_index}
use dlmm_sdk.BinArray.Bitmap.{
  u1024, bits_of, internal_bitmap_range, extension_bitmap_range, find_set_bit,
  is_overflow_default_bin_array_bitmap, build_bitmap_from_u64_arrays, most_significant_bit,
  least_significant_bit,
}

-- A round of the loop returns, or goes on from another index.
pub data Round : Type 0 where
  done : Option ℤ → Round
  move : ℤ → Round

abbrev pub found_or : Round → Option ℤ → Round
found_or otherwise none = otherwise
found_or otherwise (some k) = done (some k)

-- The branch of an index beyond the default bitmap.
unfoldable pub extension_round : Bool → BinArrayBitmapExtension → ℤ → Result Round
extension_round swap_for_y extension start =
    let size = bin_array_bitmap_size in
    if is_neg start
    then (if swap_for_y
        then (do
          found ← find_set_bit start extension_bitmap_range.0 extension
          ok (found_or (done none) found))
        else (do
          found ← find_set_bit start (pos 0 -ℤ pos size -ℤ pos 1) extension
          ok (found_or (move (pos 0 -ℤ pos size)) found)))
    else (if swap_for_y
        then (do
          found ← find_set_bit start (pos size) extension
          ok (found_or (move (pos size -ℤ pos 1)) found))
        else (do
          found ← find_set_bit start extension_bitmap_range.1 extension
          ok (found_or (done none) found)))

unfoldable pub left_of : ℤ → Option ℕ → Round
left_of start none = move (internal_bitmap_range.0 -ℤ pos 1)
left_of start (some msb) = done (some (start -ℤ pos msb))

unfoldable pub right_of : ℤ → Option ℕ → Round
right_of start none = move (internal_bitmap_range.1 +ℤ pos 1)
right_of start (some lsb) = done (some (start +ℤ pos lsb))

-- The branch of an index of the default bitmap, from the bit of that index.
unfoldable pub internal_round : Bool → LbPair → ℤ → Round
internal_round swap_for_y pair start =
    let bits = bits_of u1024 in
    let offset = nat_abs (start +ℤ pos bin_array_bitmap_size) in
    let bitmap = build_bitmap_from_u64_arrays pair.bin_array_bitmap in
    if swap_for_y
    then left_of start (most_significant_bit (bitmap * 2 ^ (bits - 1 - offset)) bits)
    else right_of start (least_significant_bit (bitmap / 2 ^ offset) bits)

unfoldable pub next_round : Bool → LbPair → Option BinArrayBitmapExtension → ℤ → Result Round
next_round swap_for_y pair extension start =
    if is_overflow_default_bin_array_bitmap start
    then elim extension [ none ↦ ok (done none) | some e ↦ extension_round swap_for_y e start ]
    else ok (internal_round swap_for_y pair start)

-- What the loop does with a round: it returns, or goes round again.
abbrev pub after_round : Result Round → (ℤ → Fueled (Option ℤ)) → Fueled (Option ℤ)
after_round (err e) again = some (err e)
after_round (ok (done r)) again = some (ok r)
after_round (ok (move i)) again = again i

-- The loop `while (true)`, on fuel.
unfoldable pub search_from :
    ℕ → Bool → LbPair → Option BinArrayBitmapExtension → ℤ → Fueled (Option ℤ)
search_from zero swap_for_y pair extension start = none
search_from (suc fuel) swap_for_y pair extension start =
    after_round (next_round swap_for_y pair extension start)
      (λ i. search_from fuel swap_for_y pair extension i)

-- From one side of the extension, over the default bitmap, to the other side: three rounds at most.
unfoldable pub find_next_bin_array_index_with_liquidity :
    Bool → ℤ → LbPair → Option BinArrayBitmapExtension → Fueled (Option ℤ)
find_next_bin_array_index_with_liquidity swap_for_y active_id pair extension =
    search_from 3 swap_for_y pair extension (bin_id_to_bin_array_index active_id)

-- `binArrays.find`: the first account of that index.
unfoldable pub array_of_index : List BinArray → ℤ → Option BinArray
array_of_index [] index = none
array_of_index (a ∷ rest) index = if eqb_ℤ a.index index then some a else array_of_index rest index

abbrev pub array_if_found : List BinArray → Option ℤ → Option BinArray
array_if_found arrays none = none
array_if_found arrays (some k) = array_of_index arrays k

abbrev pub in_arrays : List BinArray → Fueled (Option ℤ) → Fueled (Option BinArray)
in_arrays arrays none = none
in_arrays arrays (some (err e)) = some (err e)
in_arrays arrays (some (ok found)) = some (ok (array_if_found arrays found))

unfoldable pub find_next_bin_array_with_liquidity :
    Bool → ℤ → LbPair → Option BinArrayBitmapExtension → List BinArray → Fueled (Option BinArray)
find_next_bin_array_with_liquidity swap_for_y active_id pair extension arrays =
    in_arrays arrays (find_next_bin_array_index_with_liquidity swap_for_y active_id pair extension)
