-- ===== src/Examples/Ranges.antt =====
-- helpers/positions/index.ts, and the bins of a range, at concrete ranges.
use dlmm_sdk.Prelude.{◌≡◌, refl, arith, some, List, [], ◌∷◌}
use dlmm_sdk.Prelude.Int.{pos, negsuc, ◌+ℤ◌, ◌-ℤ◌, min_ℤ}
use dlmm_sdk.Positions.{BinRange, chunk_loop, chunk_bin_range}
use dlmm_sdk.Positions.Chunks.{Tiles, chunk_bin_range-Tiles}
use dlmm_sdk.Positions.{indexes_from}
use dlmm_sdk.Positions.Listing.{get_bins_between_lower_and_upper_bound}
use dlmm_sdk.Positions.Listing.Entries.{Lists, get_bins_between_lower_and_upper_bound-Lists}
use dlmm_sdk.Examples.Data.{array}

abbrev two_chunks : List BinRange
two_chunks = (negsuc 9, pos 59) ∷ (pos 60, pos 80) ∷ []

chunks_test : chunk_bin_range (negsuc 9) (pos 80) ≡ some two_chunks
unfolding chunk_bin_range chunk_loop ◌+ℤ◌ ◌-ℤ◌ min_ℤ
chunks_test = refl

chunk_bin_range-Tiles_example :
    (chunks : List BinRange) × (chunk_bin_range (negsuc 9) (pos 80) ≡ some chunks)
    × Tiles 70 (negsuc 9) (pos 80) chunks
chunk_bin_range-Tiles_example = chunk_bin_range-Tiles (negsuc 9) (pos 80)

-- One array that is known, and two that are missing.
get_bins_between_lower_and_upper_bound-Lists_example :
    Lists
      (array ∷ [])
      (indexes_from 151 (negsuc 9))
      (get_bins_between_lower_and_upper_bound (negsuc 9) (pos 140) (array ∷ []))
get_bins_between_lower_and_upper_bound-Lists_example =
    get_bins_between_lower_and_upper_bound-Lists (array ∷ []) (negsuc 9) (pos 140) (refl, tt)
      (omega arith)
