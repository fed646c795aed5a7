-- ===== src/Examples/Claiming.antt =====
-- `chunkPositionBinRange` on a small position.
use dlmm_sdk.Prelude.{◌≡◌, refl, List, [], ◌∷◌, ◌++◌, sum_of}
use dlmm_sdk.Prelude.Int.{ℤ, pos, negsuc, ◌+ℤ◌, ◌-ℤ◌}
use dlmm_sdk.Positions.Claims.{
  PositionBinData, PositionChunk, is_in_range, add_bin, is_chunk_full, chunk_position_loop,
  chunk_position_bin_range,
}
use dlmm_sdk.Positions.Claims.Sums.{counted, chunk_position_bin_range-sums}

abbrev data_at : ℤ → PositionBinData
data_at i = record {
  bin_id = i;
  position_x_amount = 10;
  position_y_amount = 20;
  position_fee_x_amount = 1;
  position_fee_y_amount = 2;
  position_reward_amount = (3, 4);
}

abbrev first_two : List PositionBinData
first_two = data_at (negsuc 1) ∷ data_at (negsuc 0) ∷ []

abbrev last_chunk : PositionChunk
last_chunk = record {
  min_bin_id = negsuc 0;
  max_bin_id = pos 0;
  totals = record {
    amount_x = 20;
    amount_y = 40;
    fee_x = 2;
    fee_y = 4;
    rewards = (6, 8);
    count = 2;
  };
}

-- The first bin is not in the range.
chunk_test :
    chunk_position_bin_range (first_two ++ data_at (pos 0) ∷ []) (negsuc 0) (pos 0)
    ≡ last_chunk ∷ []
unfolding chunk_position_bin_range chunk_position_loop is_chunk_full add_bin is_in_range ◌+ℤ◌ ◌-ℤ◌
chunk_test = refl

chunk_position_bin_range-sums_example :
    let all = first_two ++ data_at (pos 0) ∷ [] in
    let chunks = chunk_position_bin_range all (negsuc 0) (pos 0) in
    (sum_of (λ c. c.totals.amount_x) chunks
      ≡ sum_of (counted (λ b. b.position_x_amount) (negsuc 0) (pos 0)) all)
    × (sum_of (λ c. c.totals.amount_y) chunks
        ≡ sum_of (counted (λ b. b.position_y_amount) (negsuc 0) (pos 0)) all)
    × (sum_of (λ c. c.totals.fee_x) chunks
        ≡ sum_of (counted (λ b. b.position_fee_x_amount) (negsuc 0) (pos 0)) all)
    × (sum_of (λ c. c.totals.fee_y) chunks
        ≡ sum_of (counted (λ b. b.position_fee_y_amount) (negsuc 0) (pos 0)) all)
chunk_position_bin_range-sums_example =
    chunk_position_bin_range-sums (negsuc 0) (pos 0) first_two (data_at (pos 0)) refl
