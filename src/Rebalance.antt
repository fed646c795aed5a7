-- ===== src/Rebalance.antt =====
-- ts-client/src/dlmm/helpers/rebalance/rebalancePosition.ts: the simulation of a rebalance, which
-- withdraws from the bins of a position and deposits into bins around the active one. The fields of
-- a position's bins that hold prices are left out.
pub mod Withdraw
pub mod Sums
pub mod Totals
pub mod Conserved
pub mod Order
pub mod Amounts
pub mod Resize
pub mod Deposit
pub mod Coverage
pub mod Liquidity
pub mod Balanced
use dlmm_sdk.Prelude.{ℕ, zero, suc, Bool, Option, none, some, List, [], ◌∷◌}
use dlmm_sdk.Prelude.Int.{ℤ, pos, ◌+ℤ◌}
use dlmm_sdk.Positions.{ids_from_to, indexes_from}

-- `claimableRewardAmount` has two entries.
pub record RebalancePositionBinData : Type 0 where
  pub bin_id : ℤ
  pub amount_x : ℤ
  pub amount_y : ℤ
  pub claimable_reward_amount : ℤ × ℤ
  pub claimable_fee_x_amount : ℤ
  pub claimable_fee_y_amount : ℤ

-- The fields of the class, and the active bin id of its pair.
pub record RebalancePosition : Type 0 where
  pub lower_bin_id : ℤ
  pub upper_bin_id : ℤ
  pub active_id : ℤ
  pub should_claim_fee : Bool
  pub should_claim_reward : Bool
  pub rebalance_position_bin_data : List RebalancePositionBinData

-- A bound that is missing is the active bin id.
pub record RebalanceWithWithdraw : Type 0 where
  pub min_bin_id : Option ℤ
  pub max_bin_id : Option ℤ
  pub bps : ℤ

pub record RebalanceWithDeposit : Type 0 where
  pub min_delta_id : ℤ
  pub max_delta_id : ℤ
  pub x0 : ℤ
  pub y0 : ℤ
  pub delta_x : ℤ
  pub delta_y : ℤ
  pub favor_x_in_active_bin : Bool

abbrev pub or_active : ℤ → Option ℤ → ℤ
or_active active_id none = active_id
or_active active_id (some b) = b

unfoldable pub bin_range_to_bin_id_array : ℤ → ℤ → List ℤ
bin_range_to_bin_id_array min_bin_id max_bin_id =
    indexes_from (ids_from_to min_bin_id max_bin_id) min_bin_id

-- The loops of the totals add up one field of the bins.
unfoldable pub total_loop : (RebalancePositionBinData → ℤ) → ℤ → List RebalancePositionBinData → ℤ
total_loop field total [] = total
total_loop field total (b ∷ bins) = total_loop field (total +ℤ field b) bins

unfoldable pub total_amounts : List RebalancePositionBinData → ℤ × ℤ
total_amounts bins =
    (total_loop (λ b. b.amount_x) (pos 0) bins, total_loop (λ b. b.amount_y) (pos 0) bins)

unfoldable pub total_fee_amounts : List RebalancePositionBinData → ℤ × ℤ
total_fee_amounts bins = (
  total_loop (λ b. b.claimable_fee_x_amount) (pos 0) bins,
  total_loop (λ b. b.claimable_fee_y_amount) (pos 0) bins,
)

unfoldable pub total_reward_amounts : List RebalancePositionBinData → ℤ × ℤ
total_reward_amounts bins = (
  total_loop (λ b. b.claimable_reward_amount.0) (pos 0) bins,
  total_loop (λ b. b.claimable_reward_amount.1) (pos 0) bins,
)
