-- ===== src/Fee/Amount.antt =====
-- fee.ts, fees on amounts: `computeFee`, `computeFeeFromAmount` and `computeProtocolFee`.
use native.Mathlib.Nat.{div-add-mod', div-eq_of_lt-le, mul-le-mul, le_refl}
use dlmm_sdk.Prelude.{ℕ, ◌+◌, ◌-◌, ◌*◌, ◌/◌, ◌≤◌, ◌<◌, ◌≡◌, ap, arith}
use dlmm_sdk.Constants.{fee_precision, basis_point_max}
use dlmm_sdk.Pair.{SParameters, VParameters}
use dlmm_sdk.Fee.{get_total_fee, compute_fee, compute_fee_from_amount, compute_protocol_fee}
use dlmm_sdk.Fee.Rate.{get_total_fee-le}

-- A quotient rounded up.
ceil_bounds : (n d : ℕ) → 0 < d → (n ≤ (n + d - 1) / d * d) × ((n + d - 1) / d * d < n + d)
ceil_bounds n d h = grind (arith, div-add-mod' (n + d - 1) d)

ceil_unique : (n d q : ℕ) → 0 < d → n ≤ q * d → q * d < n + d → (n + (d - 1)) / d ≡ q
ceil_unique n d q h lo hi = div-eq_of_lt-le {k = q} d (omega arith) (omega arith)

gross_fee :
    (x f r d : ℕ)
    → d + r ≡ fee_precision
    → x * r ≤ f * d
    → f * d < x * r + d
    → ((x + f) * r + (fee_precision - 1)) / fee_precision ≡ f
gross_fee x f r d e lo hi =
    ceil_unique ((x + f) * r) fee_precision f (omega arith) (omega (arith, ap (λ (t : ℕ). f * t) e))
      (omega (arith, ap (λ (t : ℕ). f * t) e))

module _ (bin_step : ℕ) (s : SParameters) (v : VParameters) where
  rate_split :
      fee_precision - get_total_fee bin_step s v + get_total_fee bin_step s v ≡ fee_precision
  rate_split = omega (arith, get_total_fee-le bin_step s v)

  pub compute_fee_bounds :
      (x : ℕ)
      → let r = get_total_fee bin_step s v in
        (x * r ≤ compute_fee bin_step s v x * (fee_precision - r))
        × (compute_fee bin_step s v x * (fee_precision - r) < x * r + (fee_precision - r))
  unfolding compute_fee
  compute_fee_bounds x =
      ceil_bounds (x * get_total_fee bin_step s v) (fee_precision - get_total_fee bin_step s v)
        (omega (arith, get_total_fee-le bin_step s v))

  -- The fee that `computeFee` adds to a net amount is the fee that `computeFeeFromAmount` takes from
  -- the gross amount, whatever the parameters of the pair.
  pub compute_fee_from_amount-compute_fee :
      (x : ℕ)
      → compute_fee_from_amount bin_step s v (x + compute_fee bin_step s v x)
        ≡ compute_fee bin_step s v x
  unfolding compute_fee_from_amount
  compute_fee_from_amount-compute_fee x =
      let (lo, hi) = compute_fee_bounds x in
      gross_fee x (compute_fee bin_step s v x) (get_total_fee bin_step s v) _ rate_split lo hi

  pub compute_fee_from_amount-le : (x : ℕ) → compute_fee_from_amount bin_step s v x ≤ x
  unfolding compute_fee_from_amount
  compute_fee_from_amount-le x =
      omega (arith, mul-le-mul (le_refl x) (get_total_fee-le bin_step s v))

pub compute_protocol_fee-le :
    (f : ℕ) (s : SParameters) → s.protocol_share ≤ basis_point_max → compute_protocol_fee f s ≤ f
unfolding compute_protocol_fee
compute_protocol_fee-le f s h = grind arith
