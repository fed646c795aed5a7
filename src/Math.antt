-- ===== src/Math.antt =====
-- ts-client/src/dlmm/helpers/math.ts: fixed-point products and quotients of BN, the base factor of a
-- fee, the Q64.64 price base. Amounts are never negative there, so they are natural numbers.
pub mod Rounded
pub mod BaseFactor
pub mod Compression
pub mod Power
use dlmm_sdk.Prelude.{
  ℕ, suc, ◌+◌, ◌*◌, ◌/◌, ◌%◌, ◌^◌, Bool, true, false, ◌==◌, if◌then◌else◌, Result, ok, err, Error,
  assertion_failed,
}
use dlmm_sdk.Constants.{scale_offset, basis_point_max}

pub data Rounding : Type 0 where
  up down : Rounding

-- The quotient that `mulDiv` returns for a divisor that is not zero.
unfoldable pub round_div : ℕ → ℕ → Rounding → ℕ
round_div n d up = if n % d == 0 then n / d else n / d + 1
round_div n d down = n / d

unfoldable pub mul_div : ℕ → ℕ → ℕ → Rounding → Result ℕ
unfolding round_div
mul_div x y denominator rounding =
    if denominator == 0 then err assertion_failed else ok (round_div (x * y) denominator rounding)

unfoldable pub mul_shr : ℕ → ℕ → ℕ → Rounding → Result ℕ
unfolding mul_div
mul_shr x y offset rounding = mul_div x y (2 ^ offset) rounding

unfoldable pub shl_div : ℕ → ℕ → ℕ → Rounding → Result ℕ
unfolding mul_div
shl_div x y offset rounding = mul_div x (2 ^ offset) y rounding

-- 1.0 as a Q64.64 number.
abbrev pub one : ℕ
one = 2 ^ 64

unfoldable pub get_q_price_base_factor : ℕ → ℕ
get_q_price_base_factor bin_step = one + bin_step * 2 ^ scale_offset / basis_point_max
