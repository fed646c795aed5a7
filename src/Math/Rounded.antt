-- ===== src/Math/Rounded.antt =====
-- math.ts, the two roundings of `mulDiv`.
use dlmm_sdk.Prelude.{ℕ, ◌+◌, ◌*◌, ◌≤◌, ◌<◌, ◌^◌, ◌≡◌, arith, ok}
use dlmm_sdk.Prelude.Numbers.{two-pow-pos}
use dlmm_sdk.Math.{up, down, round_div, mul_shr, shl_div, Rounding}

pub round_div-down_bounds :
    (n d : ℕ) → 0 < d → (round_div n d down * d ≤ n) × (n < round_div n d down * d + d)
unfolding round_div
round_div-down_bounds n d h = grind arith

pub round_div-up_bounds :
    (n d : ℕ) → 0 < d → (n ≤ round_div n d up * d) × (round_div n d up * d < n + d)
unfolding round_div
round_div-up_bounds n d h = grind arith

-- `mulShr` never throws.
pub mul_shr_ok :
    (x y offset : ℕ) (r : Rounding) → mul_shr x y offset r ≡ ok (round_div (x * y) (2 ^ offset) r)
unfolding mul_shr
mul_shr_ok x y offset r = ground (arith, two-pow-pos offset)

-- `shlDiv` does not throw for a price that is not zero.
pub shl_div_ok :
    (x y offset : ℕ) (r : Rounding)
    → 0 < y
    → shl_div x y offset r ≡ ok (round_div (x * 2 ^ offset) y r)
unfolding shl_div
shl_div_ok x y offset r h = ground arith
