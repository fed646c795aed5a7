-- ===== src/Positions.antt =====
-- ts-client/src/dlmm/helpers/positions/index.ts, the ranges of bins: the bin arrays that cover a range
-- and its chunks; and `getPositionCount` of helpers/math.ts.
pub mod Chunks
pub mod Coverage
pub mod Listing
pub mod Processed
pub mod Claims
use dlmm_sdk.Prelude.{ℕ, zero, suc, ◌+◌, ◌-◌, if◌then◌else◌, Option, none, some, List, [], ◌∷◌}
use dlmm_sdk.Prelude.Int.{ℤ, pos, pos_part, neg_part, ◌+ℤ◌, ◌-ℤ◌, leb_ℤ, min_ℤ, tdiv}
use dlmm_sdk.Constants.{default_bin_per_position, position_max_length}
use dlmm_sdk.BinArray.{bin_id_to_bin_array_index}

-- The number of ids from a first to a last one.
abbrev pub ids_from_to : ℤ → ℤ → ℕ
ids_from_to first last = pos_part last + neg_part first + 1 - (pos_part first + neg_part last)

-- The loop over the indexes, by the rounds left.
unfoldable pub indexes_from : ℕ → ℤ → List ℤ
indexes_from zero i = []
indexes_from (suc rounds) i = i ∷ indexes_from rounds (i +ℤ pos 1)

unfoldable pub get_bin_array_indexes_coverage : ℤ → ℤ → List ℤ
get_bin_array_indexes_coverage lower_bin_id upper_bin_id =
    let lower = bin_id_to_bin_array_index lower_bin_id in
    let upper = bin_id_to_bin_array_index upper_bin_id in
    indexes_from (ids_from_to lower upper) lower

-- A range of bins, both ends included.
abbrev pub BinRange : Type 0
BinRange = ℤ × ℤ

abbrev add_chunk : BinRange → Option (List BinRange) → Option (List BinRange)
add_chunk chunk none = none
add_chunk chunk (some chunks) = some (chunk ∷ chunks)

-- The loop of both chunkings, for chunks of a size, on fuel.
unfoldable pub chunk_loop : ℕ → ℕ → ℤ → ℤ → Option (List BinRange)
chunk_loop size zero start max_bin_id = none
chunk_loop size (suc fuel) start max_bin_id =
    let rest = chunk_loop size fuel (start +ℤ pos size) max_bin_id in
    if leb_ℤ start max_bin_id
    then add_chunk (start, min_ℤ (start +ℤ pos size -ℤ pos 1) max_bin_id) rest
    else some []

unfoldable pub chunk_bin_range_into_extended_positions : ℤ → ℤ → Option (List BinRange)
chunk_bin_range_into_extended_positions min_bin_id max_bin_id =
    chunk_loop position_max_length (ids_from_to min_bin_id max_bin_id + 1) min_bin_id max_bin_id

unfoldable pub chunk_bin_range : ℤ → ℤ → Option (List BinRange)
chunk_bin_range min_bin_id max_bin_id =
    chunk_loop default_bin_per_position (ids_from_to min_bin_id max_bin_id + 1) min_bin_id
      max_bin_id

unfoldable pub get_extended_position_bin_count : ℤ → ℤ → ℤ
get_extended_position_bin_count min_bin_id max_bin_id =
    let width = max_bin_id -ℤ min_bin_id +ℤ pos 1 in
    let extended = width -ℤ pos default_bin_per_position in
    if leb_ℤ extended (pos 0) then pos 0 else extended

unfoldable pub get_position_count : ℤ → ℤ → ℤ
get_position_count min_bin_id max_bin_id =
    tdiv (max_bin_id -ℤ min_bin_id) default_bin_per_position +ℤ pos 1
