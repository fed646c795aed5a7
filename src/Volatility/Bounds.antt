-- ===== src/Volatility/Bounds.antt =====
-- index.ts, `updateReference` and `updateVolatilityAccumulator`, with the fee rate of fee.ts.
use native.Mathlib.Nat.{mul-le-mul, le_refl, pow-le-pow_left}
use dlmm_sdk.Prelude.{ℕ, ◌*◌, ◌≤◌, ◌≡◌, inl, inr, arith, Bool-cases, ltb}
use dlmm_sdk.Prelude.Int.{ℤ, pos, ◌-ℤ◌, ◌*ℤ◌, nat_abs, leb_ℤ, ltb_ℤ}
use dlmm_sdk.Pair.{SParameters, VParameters}
use dlmm_sdk.Fee.{get_variable_fee, get_total_fee}
use dlmm_sdk.Volatility.{update_volatility_accumulator, update_reference}

-- At the same time and active bin, a second update of the reference changes nothing.
pub update_reference-update_reference :
    (active_id : ℤ) (v : VParameters) (s : SParameters) (now_ms : ℤ)
    → update_reference active_id (update_reference active_id v s now_ms) s now_ms
      ≡ update_reference active_id v s now_ms
unfolding update_reference
update_reference-update_reference active_id v s now_ms =
    let elapsed = now_ms -ℤ v.last_update_timestamp *ℤ pos 1000 in
    elim (Bool-cases (leb_ℤ (pos (s.filter_period * 1000)) elapsed)) [
      | inl old ↦ elim (Bool-cases (ltb_ℤ elapsed (pos (s.decay_period * 1000)))) [
        | inl recent ↦ rw (old, recent) (rw (old, recent))
        | inr decayed ↦ rw (old, decayed) (rw (old, decayed))
      ]
      | inr fresh ↦ rw fresh (rw fresh)
    ]

accumulator_monotone :
    (s : SParameters) (v : VParameters) (near far : ℤ)
    → nat_abs (v.index_reference -ℤ near) ≤ nat_abs (v.index_reference -ℤ far)
    → (update_volatility_accumulator v s near).volatility_accumulator
      ≤ (update_volatility_accumulator v s far).volatility_accumulator
unfolding update_volatility_accumulator
accumulator_monotone s v near far h = omega (arith, h)

variable_fee_monotone :
    (bin_step : ℕ) (s : SParameters) (v w : VParameters)
    → v.volatility_accumulator ≤ w.volatility_accumulator
    → get_variable_fee bin_step s v ≤ get_variable_fee bin_step s w
unfolding get_variable_fee
variable_fee_monotone bin_step s v w h =
    let square = pow-le-pow_left (mul-le-mul h (le_refl bin_step)) 2 in
    let scaled = mul-le-mul (le_refl s.variable_fee_control) square in
    elim (Bool-cases (ltb 0 s.variable_fee_control)) [
      | inl on ↦ rw on (omega (arith, scaled))
      | inr off ↦ rw off (omega arith)
    ]

total_fee_monotone :
    (bin_step : ℕ) (s : SParameters) (v w : VParameters)
    → v.volatility_accumulator ≤ w.volatility_accumulator
    → get_total_fee bin_step s v ≤ get_total_fee bin_step s w
unfolding get_total_fee
total_fee_monotone bin_step s v w h =
    let more = variable_fee_monotone bin_step s v w h in ground arith

-- The farther the active bin is from the bin of reference, the higher is the fee rate, or it is equal.
pub get_total_fee-update_volatility_accumulator :
    (bin_step : ℕ) (s : SParameters) (v : VParameters) (near far : ℤ)
    → nat_abs (v.index_reference -ℤ near) ≤ nat_abs (v.index_reference -ℤ far)
    → get_total_fee bin_step s (update_volatility_accumulator v s near)
      ≤ get_total_fee bin_step s (update_volatility_accumulator v s far)
get_total_fee-update_volatility_accumulator bin_step s v near far h =
    total_fee_monotone bin_step s _ _ (accumulator_monotone s v near far h)
