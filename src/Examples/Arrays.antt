-- ===== src/Examples/Arrays.antt =====
-- helpers/binArray.ts at concrete data.
use dlmm_sdk.Prelude.{◌≡◌, refl, arith, true, Option, some, ok}
use dlmm_sdk.Prelude.Int.{ℤ, pos, negsuc, ◌≤ℤ◌, tdiv, tmod}
use dlmm_sdk.BinArray.{bin_id_to_bin_array_index}
use dlmm_sdk.BinArray.Search.{find_next_bin_array_index_with_liquidity}
use dlmm_sdk.BinArray.Search.Bits.{has_liquidity, IsWellFormed}
use dlmm_sdk.BinArray.Search.Nearest.{IsNearest, find_next_bin_array-IsNearest}
use dlmm_sdk.Examples.Data.{pair, extension}

pub pair-IsWellFormed : IsWellFormed pair extension
pair-IsWellFormed = record {
  sixteen = refl;
  words = omega arith;
  positive = record { twelve = refl; words = omega arith };
  negative = record { twelve = refl; words = omega arith };
}

from_7000 :
    (negsuc 6655 ≤ℤ bin_id_to_bin_array_index (pos 7000))
    × (bin_id_to_bin_array_index (pos 7000) ≤ℤ pos 6655)
unfolding bin_id_to_bin_array_index tdiv tmod
from_7000 = omega arith

find_next_bin_array-IsNearest_example :
    (r : Option ℤ) × (find_next_bin_array_index_with_liquidity true (pos 7000) pair (some extension)
      ≡ some (ok r))
    × IsNearest (has_liquidity pair extension) true (bin_id_to_bin_array_index (pos 7000)) r
find_next_bin_array-IsNearest_example =
    find_next_bin_array-IsNearest pair extension pair-IsWellFormed true (pos 7000) from_7000.0
      from_7000.1
