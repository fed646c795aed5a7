-- ===== src/Examples/Maths.antt =====
-- helpers/math.ts at concrete numbers.
use dlmm_sdk.Prelude.{
  ℕ, ◌+◌, ◌*◌, ◌^◌, ◌≤◌, ◌≡◌, refl, arith, List, [], ◌∷◌, some, ok, sum_of, length, All,
}
use dlmm_sdk.Prelude.Int.{ℤ, pos, ◌+ℤ◌}
use dlmm_sdk.Math.BaseFactor.{compute_base_factor_from_fee_bps}
use dlmm_sdk.Math.BaseFactor.Exact.{compute_base_factor_exact}
use dlmm_sdk.Math.Compression.{
  Entry, amount_of, compress_bin_amount, find_optimum_decompress_multiplier,
  distribute_amount_to_compressed_bins_by_ratio,
}
use dlmm_sdk.Math.Compression.Laws.{
  compress_bin_amount_conserves, find_optimum_decompress_multiplier-IsGreatestPower,
  IsGreatestPower,
}
use dlmm_sdk.Math.Compression.Distribution.{distribute_amount_conserves}

abbrev entries : List Entry
entries = (pos 1, 1234) ∷ (pos 2, 560) ∷ []

-- A fee of 10% at a bin step of 1 needs a power.
base_factor_test : compute_base_factor_from_fee_bps 1 1000 ≡ some (ok (10000, 3))
unfolding compute_base_factor_from_fee_bps
base_factor_test = refl

compute_base_factor_exact_example : (10000 ≤ 65535) × (10000 * 1 * 10 ^ 3 ≡ 1000 * 10000)
compute_base_factor_exact_example =
    compute_base_factor_exact 1 1000 10000 3 (omega arith) base_factor_test

find_optimum_decompress_multiplier-IsGreatestPower_example :
    IsGreatestPower entries 6 (find_optimum_decompress_multiplier entries 6)
find_optimum_decompress_multiplier-IsGreatestPower_example =
    find_optimum_decompress_multiplier-IsGreatestPower entries 6

optimum_test : find_optimum_decompress_multiplier entries 6 ≡ some (ok 100)
unfolding find_optimum_decompress_multiplier
optimum_test = refl

compress_bin_amount_conserves_example :
    (out : List Entry) × (loss : ℕ) × (compress_bin_amount entries 100 ≡ ok (out, loss))
    × (sum_of (λ e. e.1 * 100) out + loss ≡ sum_of amount_of entries)
    × (loss ≤ 100 * length entries)
compress_bin_amount_conserves_example = compress_bin_amount_conserves entries 100 (omega arith)

distribute_amount_conserves_example :
    (new : List Entry) × (loss : ℤ) × (distribute_amount_to_compressed_bins_by_ratio entries 1000 10
        1500
      ≡ ok (new, loss))
    × All (λ e. e.1 ≤ 1500) new
    × (loss +ℤ pos (sum_of amount_of new * 10) ≡ pos 1000 +ℤ pos (sum_of amount_of entries * 10))
distribute_amount_conserves_example =
    distribute_amount_conserves entries 1000 10 1500 (omega arith) (omega arith)
