-- ===== src/Examples/Powers.antt =====
-- helpers/u64xu64_math.ts at concrete numbers.
use dlmm_sdk.Prelude.{◌*◌, ◌^◌, ◌≤◌, ◌≡◌, refl, arith}
use dlmm_sdk.Prelude.Int.{pos}
use dlmm_sdk.Prelude.Numbers.{testn}
use dlmm_sdk.Math.{one}
use dlmm_sdk.Math.Power.{pow, pow_steps, finish}
use dlmm_sdk.Math.Power.Bound.{pow-le}

-- A quarter is a half squared.
half_squared_test : pow 9223372036854775808 (pos 2) ≡ 4611686018427387904
unfolding pow pow_steps finish testn
half_squared_test = refl

-- The greatest exponent that the code accepts has none of the bits that it reads.
last_exponent_test : pow 9223372036854775808 (pos 524288) ≡ one
unfolding pow pow_steps finish testn
last_exponent_test = refl

pow-le_example : pow 9223372036854775808 (pos 3) * one ^ 3 ≤ one * 9223372036854775808 ^ 3
pow-le_example = pow-le 9223372036854775808 3 (omega arith) (omega arith)
