-- ===== src/Constants.antt =====
-- ts-client/src/dlmm/constants/index.ts, with the values that it reads from dlmm.json.
use dlmm_sdk.Prelude.{ℕ, ◌^◌, ◌-◌}

abbrev pub basis_point_max : ℕ
basis_point_max = 10_000

abbrev pub scale_offset : ℕ
scale_offset = 64

abbrev pub fee_precision : ℕ
fee_precision = 1_000_000_000

abbrev pub max_fee_rate : ℕ
max_fee_rate = 100_000_000

abbrev pub max_bin_array_size : ℕ
max_bin_array_size = 70

abbrev pub default_bin_per_position : ℕ
default_bin_per_position = 70

abbrev pub bin_array_bitmap_size : ℕ
bin_array_bitmap_size = 512

abbrev pub extension_binarray_bitmap_size : ℕ
extension_binarray_bitmap_size = 12

abbrev pub position_max_length : ℕ
position_max_length = 1400

abbrev pub max_extra_bin_arrays : ℕ
max_extra_bin_arrays = 3

abbrev pub u64_max : ℕ
u64_max = 2 ^ 64 - 1
