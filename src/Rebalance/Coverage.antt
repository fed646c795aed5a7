-- ===== src/Rebalance/Coverage.antt =====
-- rebalancePosition.ts, `getRebalanceBinArrayIndexesAndBitmapCoverage`: the bin arrays that the ranges
-- of a rebalance touch, and whether the bitmap extension is needed. The address of the extension is
-- derived elsewhere. A map of indexes is the list of its keys.
pub mod Ranges
use dlmm_sdk.Prelude.{
  ℕ, zero, suc, Bool, true, false, ◌&&◌, ◌||◌, if◌then◌else◌, Option, none, some, List, [], ◌∷◌,
}
use dlmm_sdk.Prelude.Int.{ℤ, pos, ◌+ℤ◌, leb_ℤ}
use dlmm_sdk.BinArray.{bin_id_to_bin_array_index, get_bin_array_lower_upper_bin_id}
use dlmm_sdk.BinArray.Bitmap.{is_overflow_default_bin_array_bitmap}
use dlmm_sdk.Swap.{set_key}
use dlmm_sdk.Positions.{ids_from_to}
use dlmm_sdk.Rebalance.{RebalanceWithWithdraw, or_active}
use dlmm_sdk.Rebalance.Deposit.Simulate.{RebalanceAddLiquidityParam}

-- The loop `while (true)`, which stops at the array of the last bin, on fuel.
unfoldable pub cover_loop : ℕ → (index upper_bin_id : ℤ) → List ℤ → Option (List ℤ)
cover_loop zero index upper_bin_id keys = none
cover_loop (suc fuel) index upper_bin_id keys =
    let (lower, upper) = get_bin_array_lower_upper_bin_id index in
    let rest = cover_loop fuel (index +ℤ pos 1) upper_bin_id (set_key keys index) in
    if leb_ℤ lower upper_bin_id && leb_ℤ upper_bin_id upper then some (set_key keys index) else rest

-- One round for each array from the first bin's to the last bin's.
unfoldable pub cover_range : (min_bin_id max_bin_id : ℤ) → List ℤ → Option (List ℤ)
cover_range min_bin_id max_bin_id keys =
    let index = bin_id_to_bin_array_index min_bin_id in
    cover_loop (ids_from_to index (bin_id_to_bin_array_index max_bin_id)) index max_bin_id keys

abbrev pub on_keys : Option (List ℤ) → (List ℤ → Option (List ℤ)) → Option (List ℤ)
on_keys none next = none
on_keys (some keys) next = next keys

unfoldable pub cover_removes :
    (active_id : ℤ) → List RebalanceWithWithdraw → List ℤ → Option (List ℤ)
cover_removes active_id [] keys = some keys
cover_removes active_id (r ∷ removes) keys =
    on_keys (cover_range (or_active active_id r.min_bin_id) (or_active active_id r.max_bin_id) keys)
      (λ covered. cover_removes active_id removes covered)

unfoldable pub cover_adds :
    (active_id : ℤ) → List RebalanceAddLiquidityParam → List ℤ → Option (List ℤ)
cover_adds active_id [] keys = some keys
cover_adds active_id (a ∷ adds) keys =
    on_keys (cover_range (active_id +ℤ a.min_delta_id) (active_id +ℤ a.max_delta_id) keys)
      (λ covered. cover_adds active_id adds covered)

unfoldable pub get_rebalance_bin_array_indexes :
    List RebalanceAddLiquidityParam → List RebalanceWithWithdraw → (active_id : ℤ) → Option (List ℤ)
get_rebalance_bin_array_indexes adds removes active_id =
    on_keys (cover_removes active_id removes []) (λ keys. cover_adds active_id adds keys)

-- `some` of an array.
unfoldable pub require_bitmap_extension : List ℤ → Bool
require_bitmap_extension [] = false
require_bitmap_extension (i ∷ indexes) =
    is_overflow_default_bin_array_bitmap i || require_bitmap_extension indexes
