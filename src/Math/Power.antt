-- ===== src/Math/Power.antt =====
-- ts-client/src/dlmm/helpers/u64xu64_math.ts, `pow`: powers of a Q64.64 number by squaring, and
-- `getQPriceFromId` of helpers/math.ts.
pub mod Bound
use dlmm_sdk.Prelude.{
  ℕ, zero, suc, ◌+◌, ◌-◌, ◌*◌, ◌/◌, ◌^◌, Bool, true, false, not, ltb, leb, ◌==◌, if◌then◌else◌,
}
use dlmm_sdk.Prelude.Int.{ℤ, pos, negsuc, nat_abs, is_neg}
use dlmm_sdk.Prelude.Numbers.{testn}
use dlmm_sdk.Constants.{scale_offset}
use dlmm_sdk.Math.{one, get_q_price_base_factor}

abbrev pub max_exponential : ℕ
max_exponential = 524288

abbrev pub max_u128 : ℕ
max_u128 = 2 ^ 128 - 1

-- The steps for the bits of the exponent, written out in the source: where the bit is set, the result
-- is multiplied by the base, and the base is squared. The square after the last bit is not used.
unfoldable pub pow_steps : (rounds bit exp squared_base result : ℕ) → ℕ
pow_steps zero bit exp squared_base result = result
pow_steps (suc rounds) bit exp squared_base result =
    pow_steps rounds (bit + 1) exp (squared_base * squared_base / 2 ^ scale_offset)
      (if testn exp bit then result * squared_base / 2 ^ scale_offset else result)

-- The last statements: a result of zero stays zero, and an inverted one is the reciprocal.
unfoldable pub finish : Bool → ℕ → ℕ
finish invert result = if result == 0 then 0 else if invert then max_u128 / result else result

-- The division by the base is behind the test that the base is at least one.
unfoldable pub pow : ℕ → ℤ → ℕ
pow base exp =
    if nat_abs exp == 0
    then one
    else if ltb max_exponential (nat_abs exp)
    then 0
    else if leb one base
    then finish (not (is_neg exp)) (pow_steps 19 0 (nat_abs exp) (max_u128 / base) one)
    else finish (is_neg exp) (pow_steps 19 0 (nat_abs exp) base one)

unfoldable pub get_q_price_from_id : ℤ → ℕ → ℕ
get_q_price_from_id bin_id bin_step = pow (get_q_price_base_factor bin_step) bin_id
