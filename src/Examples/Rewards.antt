-- ===== src/Examples/Rewards.antt =====
-- `updateBinArray` and the volatility at concrete data.
use dlmm_sdk.Prelude.{◌^◌, ◌≤◌, ◌≡◌, ◌⊎◌, refl, arith, true, List, [], ◌∷◌, ok, get_elem?}
use dlmm_sdk.Prelude.Int.{ℤ, pos, negsuc, ◌+ℤ◌, ◌-ℤ◌, ◌*ℤ◌, min_ℤ, tdiv, nat_abs}
use dlmm_sdk.Pair.{Bin, BinArray}
use dlmm_sdk.Fee.{get_total_fee}
use dlmm_sdk.Volatility.{update_volatility_accumulator}
use dlmm_sdk.Volatility.Bounds.{get_total_fee-update_volatility_accumulator}
use dlmm_sdk.BinArray.{get_bin_array_lower_upper_bin_id, get_bin_id_index_in_bin_array}
use dlmm_sdk.BinArray.Rewards.{
  RewardInfo, is_reward_initialized, reward_delta, update_stored, update_active_bin,
  update_bin_array,
}
use dlmm_sdk.BinArray.Rewards.Growth.{Grows, update_stored-Grows}
use dlmm_sdk.BinArray.Rewards.Others.{update_bin_array-others}
use dlmm_sdk.Examples.Data.{s, v}

abbrev reward : RewardInfo
reward = record {
  initialized = true;
  reward_duration_end = 2000;
  reward_rate = 300;
  last_update_time = 1000;
}

abbrev bin_with : ℤ → Bin
bin_with stored = record {
  amount_x = 10;
  amount_y = 10;
  price = 2 ^ 64;
  liquidity_supply = 2 ^ 65;
  fee_amount_x_per_token_stored = 0;
  fee_amount_y_per_token_stored = 0;
  reward_per_token_stored = stored ∷ pos 0 ∷ [];
}

abbrev array_with : ℤ → BinArray
array_with stored = record { index = pos 0; bins = bin_with (pos 5) ∷ bin_with stored ∷ [] }

-- 300 a second for 60 seconds, over 15 and two units of liquidity.
update_test :
    update_bin_array (pos 1) (pos 1060) (reward ∷ []) (array_with (pos 7))
    ≡ ok (array_with (pos 607))
unfolding update_bin_array get_bin_array_lower_upper_bin_id get_bin_id_index_in_bin_array
    update_active_bin update_stored reward_delta is_reward_initialized min_ℤ tdiv ◌+ℤ◌ ◌-ℤ◌ ◌*ℤ◌
update_test = refl

update_bin_array-others_example :
    (pos 0 ≡ pos 1 -ℤ (array_with (pos 7)).index *ℤ pos 70)
    ⊎ (get_elem? (array_with (pos 607)).bins 0 ≡ get_elem? (array_with (pos 7)).bins 0)
update_bin_array-others_example =
    update_bin_array-others (pos 1) (pos 1060) (reward ∷ []) (array_with (pos 7))
      (array_with (pos 607)) 0 update_test

update_stored-Grows_example :
    (new : List ℤ) × (update_stored (2 ^ 65) (pos 1060) (reward ∷ []) (pos 7 ∷ pos 0 ∷ []) ≡ ok new)
    × Grows (pos 7 ∷ pos 0 ∷ []) new
update_stored-Grows_example =
    update_stored-Grows (2 ^ 65) (pos 1060) (reward ∷ []) (pos 7 ∷ pos 0 ∷ []) (omega arith)
      (omega arith) (omega arith)

near_and_far : nat_abs (v.index_reference -ℤ pos 2) ≤ nat_abs (v.index_reference -ℤ negsuc 4)
unfolding ◌-ℤ◌
near_and_far = omega arith

get_total_fee-update_volatility_accumulator_example :
    get_total_fee 10 s (update_volatility_accumulator v s (pos 2))
    ≤ get_total_fee 10 s (update_volatility_accumulator v s (negsuc 4))
get_total_fee-update_volatility_accumulator_example =
    get_total_fee-update_volatility_accumulator 10 s v (pos 2) (negsuc 4) near_and_far
