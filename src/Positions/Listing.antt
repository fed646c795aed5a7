-- ===== src/Positions/Listing.antt =====
-- ts-client/src/dlmm/index.ts, the private `getBinsBetweenLowerAndUpperBound`: the bins of a range, from
-- the bin arrays that are given. The prices and versions of the entries are left out.
pub mod Ids
pub mod Entries
use dlmm_sdk.Prelude.{
  ℕ, zero, suc, ◌+◌, ◌&&◌, if◌then◌else◌, Option, none, some, List, [], ◌∷◌, ◌++◌, get_elem?,
  Result, ok, from_option, ◌>>=◌, type_error,
}
use dlmm_sdk.Prelude.Int.{ℤ, pos, ◌+ℤ◌, leb_ℤ}
use dlmm_sdk.Constants.{max_bin_array_size}
use dlmm_sdk.Pair.{Bin, BinArray}
use dlmm_sdk.BinArray.{bin_id_to_bin_array_index, get_bin_array_lower_upper_bin_id}
use dlmm_sdk.BinArray.Search.{array_of_index}
use dlmm_sdk.Positions.{ids_from_to}

pub record BinLiquidity : Type 0 where
  pub bin_id : ℤ
  pub x_amount : ℕ
  pub y_amount : ℕ
  pub supply : ℕ
  pub fee_amount_x_per_token_stored : ℕ
  pub fee_amount_y_per_token_stored : ℕ
  pub reward_per_token_stored : List ℤ

-- The entry of a bin whose array is missing, and of another one.
abbrev pub missing_bin : ℤ → BinLiquidity
missing_bin bin_id = record {
  bin_id = bin_id;
  x_amount = 0;
  y_amount = 0;
  supply = 0;
  fee_amount_x_per_token_stored = 0;
  fee_amount_y_per_token_stored = 0;
  reward_per_token_stored = pos 0 ∷ pos 0 ∷ [];
}

abbrev pub listed_bin : ℤ → Bin → BinLiquidity
listed_bin bin_id bin = record {
  bin_id = bin_id;
  x_amount = bin.amount_x;
  y_amount = bin.amount_y;
  supply = bin.liquidity_supply;
  fee_amount_x_per_token_stored = bin.fee_amount_x_per_token_stored;
  fee_amount_y_per_token_stored = bin.fee_amount_y_per_token_stored;
  reward_per_token_stored = bin.reward_per_token_stored;
}

unfoldable pub bin_entry : ℤ → ℕ → Option BinArray → Result BinLiquidity
bin_entry bin_id i none = ok (missing_bin bin_id)
bin_entry bin_id i (some bin_array) = do
  bin ← from_option type_error (get_elem? bin_array.bins i)
  ok (listed_bin bin_id bin)

-- The loop over the places of an array, by the rounds left.
unfoldable pub array_loop :
    (rounds i : ℕ)
    → (first lower_bin_id upper_bin_id : ℤ) → Option BinArray
    → Result (List BinLiquidity)
array_loop zero i first lower_bin_id upper_bin_id bin_array = ok []
array_loop (suc rounds) i first lower_bin_id upper_bin_id bin_array =
    let bin_id = first +ℤ pos i in
    let rest = array_loop rounds (i + 1) first lower_bin_id upper_bin_id bin_array in
    if leb_ℤ lower_bin_id bin_id && leb_ℤ bin_id upper_bin_id
    then (do bin ← bin_entry bin_id i bin_array; bins ← rest; ok (bin ∷ bins))
    else rest

-- The loop over the indexes of the arrays, by the rounds left. The map of the arrays has their
-- addresses as keys, one for each index.
unfoldable pub arrays_loop :
    (rounds : ℕ)
    → (index lower_bin_id upper_bin_id : ℤ) → List BinArray
    → Result (List BinLiquidity)
arrays_loop zero index lower_bin_id upper_bin_id bin_arrays = ok []
arrays_loop (suc rounds) index lower_bin_id upper_bin_id bin_arrays = do
  bins ←
      array_loop max_bin_array_size 0 (get_bin_array_lower_upper_bin_id index).0 lower_bin_id
        upper_bin_id (array_of_index bin_arrays index)
  rest ← arrays_loop rounds (index +ℤ pos 1) lower_bin_id upper_bin_id bin_arrays
  ok (bins ++ rest)

unfoldable pub get_bins_between_lower_and_upper_bound :
    (lower_bin_id upper_bin_id : ℤ) → List BinArray → Result (List BinLiquidity)
get_bins_between_lower_and_upper_bound lower_bin_id upper_bin_id bin_arrays =
    let lower = bin_id_to_bin_array_index lower_bin_id in
    let upper = bin_id_to_bin_array_index upper_bin_id in
    arrays_loop (ids_from_to lower upper) lower lower_bin_id upper_bin_id bin_arrays
