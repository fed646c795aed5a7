-- ===== src/BinArray.antt =====
-- ts-client/src/dlmm/helpers/binArray.ts: bins in arrays of 70.
pub mod Index
pub mod Bitmap
pub mod Search
pub mod Rewards
use dlmm_sdk.Prelude.{
  ℕ, ◌+◌, ◌-◌, Bool, true, false, ltb, leb, ◌==◌, ◌&&◌, ◌||◌, not, if◌then◌else◌, Option, none,
  some, get_elem?, List,
}
use dlmm_sdk.Prelude.Int.{
  ℤ, pos, negsuc, ◌+ℤ◌, ◌-ℤ◌, ◌*ℤ◌, tdiv, tmod, ltb_ℤ, leb_ℤ, is_neg, is_zero_ℤ,
}
use dlmm_sdk.Constants.{max_bin_array_size}
use dlmm_sdk.Pair.{Bin, BinArray}

unfoldable pub bin_id_to_bin_array_index : ℤ → ℤ
bin_id_to_bin_array_index bin_id =
    let idx = tdiv bin_id max_bin_array_size in
    let rem = tmod bin_id max_bin_array_size in
    if is_neg bin_id && not (is_zero_ℤ rem) then idx -ℤ pos 1 else idx

unfoldable pub get_bin_array_lower_upper_bin_id : ℤ → ℤ × ℤ
get_bin_array_lower_upper_bin_id index =
    let lower = index *ℤ pos max_bin_array_size in (lower, lower +ℤ pos max_bin_array_size -ℤ pos 1)

unfoldable pub is_bin_id_within_bin_array : ℤ → ℤ → Bool
unfolding get_bin_array_lower_upper_bin_id
is_bin_id_within_bin_array active_id index =
    let (lower, upper) = get_bin_array_lower_upper_bin_id index in
    leb_ℤ lower active_id && leb_ℤ active_id upper

-- A JavaScript array read: an index that is negative or too large gives `undefined`.
abbrev pub item_at {ℓ} : {A : Type ℓ} → List A → ℤ → Option A
item_at xs (pos n) = get_elem? xs n
item_at xs (negsuc n) = none

unfoldable pub get_bin_from_bin_array : ℤ → BinArray → Option Bin
unfolding get_bin_array_lower_upper_bin_id
get_bin_from_bin_array bin_id bin_array =
    let (lower, upper) = get_bin_array_lower_upper_bin_id bin_array.index in
    item_at bin_array.bins (
      if ltb_ℤ (pos 0) bin_id
      then bin_id -ℤ lower
      else pos max_bin_array_size -ℤ (upper -ℤ bin_id) -ℤ pos 1)

unfoldable pub get_bin_id_index_in_bin_array : (bin_id lower upper : ℤ) → Option ℤ
get_bin_id_index_in_bin_array bin_id lower upper =
    if ltb_ℤ bin_id lower || ltb_ℤ upper bin_id then none else some (bin_id -ℤ lower)
