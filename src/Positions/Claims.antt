-- ===== src/Positions/Claims.antt =====
-- positions/index.ts, `chunkPositionBinRange`: the amounts, fees and rewards of a position, summed over
-- chunks of 70 bins.
pub mod Sums
use dlmm_sdk.Prelude.{
  ℕ, zero, suc, ◌+◌, ◌≡◌, refl, arith, Bool, true, false, ◌==◌, ◌&&◌, ◌||◌, if◌then◌else◌, List, [],
  ◌∷◌, sum_of, Bool-cases, inl, inr,
}
use dlmm_sdk.Prelude.Int.{ℤ, pos, ◌+ℤ◌, ◌-ℤ◌, leb_ℤ, eqb_ℤ}
use dlmm_sdk.Constants.{default_bin_per_position}

-- A position has two rewards.
pub record PositionBinData : Type 0 where
  pub bin_id : ℤ
  pub position_x_amount : ℕ
  pub position_y_amount : ℕ
  pub position_fee_x_amount : ℕ
  pub position_fee_y_amount : ℕ
  pub position_reward_amount : ℕ × ℕ

-- The local totals of the loop.
pub record Totals : Type 0 where
  pub amount_x : ℕ
  pub amount_y : ℕ
  pub fee_x : ℕ
  pub fee_y : ℕ
  pub rewards : ℕ × ℕ
  pub count : ℕ

abbrev pub no_totals : Totals
no_totals = record { amount_x = 0; amount_y = 0; fee_x = 0; fee_y = 0; rewards = (0, 0); count = 0 }

pub record PositionChunk : Type 0 where
  pub min_bin_id : ℤ
  pub max_bin_id : ℤ
  pub totals : Totals

unfoldable pub is_in_range : ℤ → ℤ → PositionBinData → Bool
is_in_range min_bin_id max_bin_id b = leb_ℤ min_bin_id b.bin_id && leb_ℤ b.bin_id max_bin_id

unfoldable pub add_bin : ℤ → ℤ → PositionBinData → Totals → Totals
add_bin min_bin_id max_bin_id b t =
    if is_in_range min_bin_id max_bin_id b
    then record {
      amount_x = t.amount_x + b.position_x_amount;
      amount_y = t.amount_y + b.position_y_amount;
      fee_x = t.fee_x + b.position_fee_x_amount;
      fee_y = t.fee_y + b.position_fee_y_amount;
      rewards =
          (t.rewards.0 + b.position_reward_amount.0, t.rewards.1 + b.position_reward_amount.1);
      count = t.count + 1;
    }
    else t

unfoldable pub is_chunk_full : ℤ → PositionBinData → Totals → Bool
is_chunk_full max_bin_id b t = (t.count == default_bin_per_position) || eqb_ℤ b.bin_id max_bin_id

abbrev pub chunk_of : PositionBinData → Totals → PositionChunk
chunk_of b t = record {
  min_bin_id = b.bin_id -ℤ pos t.count +ℤ pos 1;
  max_bin_id = b.bin_id;
  totals = t;
}

-- The chunks, and the totals that no chunk has taken.
unfoldable pub chunk_position_loop :
    ℤ → ℤ → List PositionBinData → Totals → List PositionChunk × Totals
chunk_position_loop min_bin_id max_bin_id [] t = ([], t)
chunk_position_loop min_bin_id max_bin_id (b ∷ bins) t =
    let added = add_bin min_bin_id max_bin_id b t in
    let full = is_chunk_full max_bin_id b added in
    let rest = chunk_position_loop min_bin_id max_bin_id bins (if full then no_totals else added) in
    if full then (chunk_of b added ∷ rest.0, rest.1) else rest

unfoldable pub chunk_position_bin_range : List PositionBinData → ℤ → ℤ → List PositionChunk
chunk_position_bin_range bins min_bin_id max_bin_id =
    (chunk_position_loop min_bin_id max_bin_id bins no_totals).0
