-- ===== src/Volatility.antt =====
-- ts-client/src/dlmm/index.ts, `DLMM.updateReference` and `DLMM.updateVolatilityAccumulator`: how far
-- swaps have moved the active bin, which sets the variable fee. Both assign to fields of the
-- parameters that they are given; here they return the new parameters.
pub mod Bounds
use dlmm_sdk.Prelude.{ℕ, ◌+◌, ◌*◌, ◌/◌, min, if◌then◌else◌}
use dlmm_sdk.Prelude.Int.{ℤ, pos, ◌-ℤ◌, ◌*ℤ◌, nat_abs, leb_ℤ, ltb_ℤ}
use dlmm_sdk.Constants.{basis_point_max}
use dlmm_sdk.Pair.{SParameters, VParameters}

unfoldable pub update_volatility_accumulator : VParameters → SParameters → ℤ → VParameters
update_volatility_accumulator v s active_id =
    let delta_id = nat_abs (v.index_reference -ℤ active_id) in
    let new_volatility_accumulator = v.volatility_reference + delta_id * basis_point_max in
    record {
      volatility_accumulator = min new_volatility_accumulator s.max_volatility_accumulator;
      volatility_reference = v.volatility_reference;
      index_reference = v.index_reference;
      last_update_timestamp = v.last_update_timestamp;
    }

-- The reference after a swap that is past the filter period.
abbrev renewed : ℤ → VParameters → ℕ → VParameters
renewed active_id v reference = record {
  volatility_accumulator = v.volatility_accumulator;
  volatility_reference = reference;
  index_reference = active_id;
  last_update_timestamp = v.last_update_timestamp;
}

-- `Date.now()` is in milliseconds, and the accounts keep seconds: the times are compared in
-- milliseconds.
unfoldable pub update_reference : ℤ → VParameters → SParameters → (now_ms : ℤ) → VParameters
update_reference active_id v s now_ms =
    let elapsed_ms = now_ms -ℤ v.last_update_timestamp *ℤ pos 1000 in
    if leb_ℤ (pos (s.filter_period * 1000)) elapsed_ms
    then (if ltb_ℤ elapsed_ms (pos (s.decay_period * 1000))
        then renewed active_id v (v.volatility_accumulator * s.reduction_factor / basis_point_max)
        else renewed active_id v 0)
    else v
