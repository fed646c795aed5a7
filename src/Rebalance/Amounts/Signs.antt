-- ===== src/Rebalance/Amounts/Signs.antt =====
-- rebalancePosition.ts, the flag of `buildBitFlagAndNegateStrategyParameters`.
use dlmm_sdk.Prelude.{ℕ, suc, ◌/◌, ◌%◌, ◌^◌, ◌≡◌, refl, arith, ◌==◌, if◌then◌else◌}
use dlmm_sdk.Prelude.Int.{ℤ, pos, negsuc, neg_ℤ}
use dlmm_sdk.Rebalance.Amounts.{build_bit_flag_and_negate_strategy_parameters}

-- A magnitude with the sign that a bit of the flag tells.
abbrev pub signed : (flag bit : ℕ) → ℕ → ℤ
signed flag bit n = if flag / 2 ^ bit % 2 == 1 then neg_ℤ (pos n) else pos n

negated : (n : ℕ) → neg_ℤ (pos (suc n)) ≡ negsuc n
unfolding neg_ℤ
negated n = ground arith

-- The flag and the magnitudes give the four parameters back, with their signs.
pub build_bit_flag_roundtrip :
    (x0 y0 delta_x delta_y : ℤ)
    → let p = build_bit_flag_and_negate_strategy_parameters x0 y0 delta_x delta_y in
      (signed p.bit_flag 0 p.x0 ≡ x0)
      × (signed p.bit_flag 1 p.y0 ≡ y0)
      × (signed p.bit_flag 2 p.delta_x ≡ delta_x)
      × (signed p.bit_flag 3 p.delta_y ≡ delta_y)
unfolding build_bit_flag_and_negate_strategy_parameters
build_bit_flag_roundtrip (pos a) (pos b) (pos c) (pos d) = (refl, refl, refl, refl)
build_bit_flag_roundtrip (pos a) (pos b) (pos c) (negsuc d) = (refl, refl, refl, negated d)
build_bit_flag_roundtrip (pos a) (pos b) (negsuc c) (pos d) = (refl, refl, negated c, refl)
build_bit_flag_roundtrip (pos a) (pos b) (negsuc c) (negsuc d) = (refl, refl, negated c, negated d)
build_bit_flag_roundtrip (pos a) (negsuc b) (pos c) (pos d) = (refl, negated b, refl, refl)
build_bit_flag_roundtrip (pos a) (negsuc b) (pos c) (negsuc d) = (refl, negated b, refl, negated d)
build_bit_flag_roundtrip (pos a) (negsuc b) (negsuc c) (pos d) = (refl, negated b, negated c, refl)
build_bit_flag_roundtrip (pos a) (negsuc b) (negsuc c) (negsuc d) =
    (refl, negated b, negated c, negated d)
build_bit_flag_roundtrip (negsuc a) (pos b) (pos c) (pos d) = (negated a, refl, refl, refl)
build_bit_flag_roundtrip (negsuc a) (pos b) (pos c) (negsuc d) = (negated a, refl, refl, negated d)
build_bit_flag_roundtrip (negsuc a) (pos b) (negsuc c) (pos d) = (negated a, refl, negated c, refl)
build_bit_flag_roundtrip (negsuc a) (pos b) (negsuc c) (negsuc d) =
    (negated a, refl, negated c, negated d)
build_bit_flag_roundtrip (negsuc a) (negsuc b) (pos c) (pos d) = (negated a, negated b, refl, refl)
build_bit_flag_roundtrip (negsuc a) (negsuc b) (pos c) (negsuc d) =
    (negated a, negated b, refl, negated d)
build_bit_flag_roundtrip (negsuc a) (negsuc b) (negsuc c) (pos d) =
    (negated a, negated b, negated c, refl)
build_bit_flag_roundtrip (negsuc a) (negsuc b) (negsuc c) (negsuc d) =
    (negated a, negated b, negated c, negated d)
