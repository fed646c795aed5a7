-- ===== src/Math/BaseFactor.antt =====
-- math.ts, `computeBaseFactorFromFeeBps`. The number `feeBps * 10000 / binStep` that the loop divides
-- by ten is the fraction of a numerator and the bin step; the fractions of the code are exact.
pub mod Exact
use dlmm_sdk.Prelude.{
  ℕ, zero, suc, ◌+◌, ◌*◌, ◌/◌, ◌%◌, Bool, true, false, ◌==◌, ltb, leb, not, if◌then◌else◌, Option,
  none, some, Result, ok, err, Error, have_decimals, base_factor_overflow, base_factor_underflow,
  base_factor_not_exact,
}
use dlmm_sdk.Constants.{basis_point_max}

abbrev pub u16_max : ℕ
u16_max = 65535

-- The loop, on the fraction `num / den`; `none` means that the fuel ran out.
pub reduce_base_factor : ℕ → ℕ → ℕ → ℕ → Option (Result (ℕ × ℕ))
reduce_base_factor zero num den power = none
reduce_base_factor (suc fuel) num den power =
    let rest = reduce_base_factor fuel (num / 10) den (power + 1) in
    if ltb (u16_max * den) num
    then (if num % (10 * den) == 0 then rest else some (err have_decimals))
    else some (ok (num / den, power))

-- The branch of a factor that fits: `floor` is the whole part and `exact` tells that there is no other.
pub check_base_factor : ℕ → Bool → Result (ℕ × ℕ)
check_base_factor floor exact =
    if exact
    then ok (floor, 0)
    else if leb u16_max floor
    then err base_factor_overflow
    else if floor == 0
    then err base_factor_underflow
    else err base_factor_not_exact

-- A bin step of zero gives `NaN` for a fee of zero and else `Infinity`, which leaves no remainder 0.
unfoldable pub compute_base_factor_from_fee_bps : ℕ → ℕ → Option (Result (ℕ × ℕ))
unfolding reduce_base_factor check_base_factor
compute_base_factor_from_fee_bps bin_step fee_bps =
    let num = fee_bps * basis_point_max in
    if bin_step == 0
    then (if num == 0 then some (err base_factor_not_exact) else some (err have_decimals))
    else if ltb (u16_max * bin_step) num
    then reduce_base_factor (num + 1) num bin_step 0
    else some (check_base_factor (num / bin_step) (num % bin_step == 0))
