-- ===== src/Fee/Rate.antt =====
-- fee.ts, the fee rates, and the base factor of math.ts.
use dlmm_sdk.Prelude.{ℕ, ◌*◌, ◌≤◌, ◌<◌, ◌≡◌, arith, some, ok}
use dlmm_sdk.Constants.{max_fee_rate, fee_precision, basis_point_max}
use dlmm_sdk.Pair.{SParameters, VParameters}
use dlmm_sdk.Fee.{get_total_fee, get_base_fee}
use dlmm_sdk.Math.BaseFactor.{compute_base_factor_from_fee_bps}
use dlmm_sdk.Math.BaseFactor.Exact.{compute_base_factor_exact}

pub get_total_fee-le :
    (bin_step : ℕ) (s : SParameters) (v : VParameters) → get_total_fee bin_step s v ≤ max_fee_rate
unfolding get_total_fee
get_total_fee-le bin_step s v = ground arith

-- For a positive bin step, a pool whose base factor and power were computed for a fee in basis points has that base fee: the
-- rate is `feeBps` ten-thousandths of `FEE_PRECISION`.
pub get_base_fee_of_computed_factor :
    (bin_step fee_bps b p : ℕ) (s : SParameters)
    → 0 < bin_step
    → compute_base_factor_from_fee_bps bin_step fee_bps ≡ some (ok (b, p))
    → s.base_factor ≡ b
    → s.base_fee_power_factor ≡ p
    → get_base_fee bin_step s * basis_point_max ≡ fee_bps * fee_precision
unfolding get_base_fee
get_base_fee_of_computed_factor bin_step fee_bps b p s d h eb ep =
    let (_, e) = compute_base_factor_exact bin_step fee_bps b p d h in
    rw (eb, ep) (omega (arith, e))
