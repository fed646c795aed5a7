-- ===== src/Examples/Processing.antt =====
-- `processPosition` at a concrete position of two bins.
use dlmm_sdk.Prelude.{
  ℕ, ◌+◌, ◌^◌, ◌≤◌, ◌≡◌, refl, arith, inr, true, some, List, [], ◌∷◌, sum_of, ok,
}
use dlmm_sdk.Prelude.Int.{pos, ◌+ℤ◌, ◌*ℤ◌, tdiv}
use dlmm_sdk.Pair.{Bin, BinArray}
use dlmm_sdk.BinArray.{bin_id_to_bin_array_index, get_bin_array_lower_upper_bin_id}
use dlmm_sdk.BinArray.Rewards.{RewardInfo}
use dlmm_sdk.BinArray.Search.{array_of_index}
use dlmm_sdk.Positions.{indexes_from}
use dlmm_sdk.Positions.Listing.{
  BinLiquidity, listed_bin, bin_entry, array_loop, arrays_loop,
  get_bins_between_lower_and_upper_bound,
}
use dlmm_sdk.Positions.Processed.{
  UserFeeInfo, UserRewardInfo, ProcessedBin, ProcessedTotals, no_amounts, process_position,
}
use dlmm_sdk.Positions.Processed.Entry.{IsHeld, AllHeld}
use dlmm_sdk.Positions.Processed.Sums.{IsAdded, processed_ids, process_position-IsAdded}
use dlmm_sdk.Examples.Data.{repeated}

abbrev filled : Bin
filled = record {
  amount_x = 1000;
  amount_y = 500;
  price = 2 ^ 64;
  liquidity_supply = 2 ^ 66;
  fee_amount_x_per_token_stored = 2 ^ 63;
  fee_amount_y_per_token_stored = 2 ^ 62;
  reward_per_token_stored = pos 7 ∷ pos 0 ∷ [];
}

abbrev filled_array : BinArray
filled_array = record { index = pos 0; bins = repeated 70 filled }

abbrev two_bins : List BinLiquidity
two_bins = listed_bin (pos 1) filled ∷ listed_bin (pos 2) filled ∷ []

two_bins_test :
    get_bins_between_lower_and_upper_bound (pos 1) (pos 2) (filled_array ∷ []) ≡ ok two_bins
unfolding get_bins_between_lower_and_upper_bound arrays_loop array_loop bin_entry array_of_index
    bin_id_to_bin_array_index get_bin_array_lower_upper_bin_id tdiv ◌+ℤ◌ ◌*ℤ◌
two_bins_test = refl

abbrev reward : RewardInfo
reward = record {
  initialized = true;
  reward_duration_end = 2000;
  reward_rate = 30;
  last_update_time = 1000;
}

abbrev fee_info : UserFeeInfo
fee_info = record {
  fee_x_per_token_complete = 0;
  fee_y_per_token_complete = 0;
  fee_x_pending = 3;
  fee_y_pending = 4;
}

abbrev reward_info : UserRewardInfo
reward_info = record { reward_per_token_completes = 5 ∷ 0 ∷ []; reward_pendings = 1 ∷ 2 ∷ [] }

is_held : (i : ℕ) → IsHeld (listed_bin (pos i) filled) (2 ^ 65) reward_info
is_held i = record {
  within = omega arith;
  scaled = inr (omega arith);
  stored = omega arith;
  completes = omega arith;
  pendings = omega arith;
}

all_held :
    AllHeld two_bins
      (2 ^ 65 ∷ 2 ^ 65 ∷ [])
      (fee_info ∷ fee_info ∷ [])
      (reward_info ∷ reward_info ∷ [])
unfolding AllHeld
all_held = (is_held 1, (is_held 2, tt))

process_position-IsAdded_example :
    (p : List ProcessedBin × ProcessedTotals) × (process_position
        (λ a b. a + b)
        (pos 2)
        (pos 1600)
        (reward, reward)
        (pos 1)
        (pos 2)
        (2 ^ 65 ∷ 2 ^ 65 ∷ [])
        (fee_info ∷ fee_info ∷ [])
        (reward_info ∷ reward_info ∷ [])
        (filled_array ∷ [])
      ≡ ok (some p))
    × (processed_ids p.0 ≡ indexes_from 2 (pos 1))
    × (sum_of (λ b. b.position_x_amount) p.0 ≤ 2000)
    × (sum_of (λ b. b.position_y_amount) p.0 ≤ 1000)
    × IsAdded no_amounts p.1 p.0
process_position-IsAdded_example =
    process_position-IsAdded (λ a b. a + b) (pos 2) (pos 1600) (reward, reward) (pos 1) (pos 2)
      (2 ^ 65 ∷ 2 ^ 65 ∷ []) (fee_info ∷ fee_info ∷ []) (reward_info ∷ reward_info ∷ [])
      (filled_array ∷ []) two_bins (λ a b h. refl) (refl, tt) (omega arith) two_bins_test all_held
      (omega arith) (omega arith)
