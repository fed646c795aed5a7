-- ===== src/Positions/Processed.antt =====
-- ts-client/src/dlmm/index.ts, the private `processPosition`: the amounts, fees and rewards of a
-- position by bin, and their totals. The package Decimal adds the amounts up: its `add` on whole numbers is
-- a parameter. The prices, the accounts that are only passed on, and the amounts without transfer fees
-- are left out.
pub mod Entry
pub mod Sums
use dlmm_sdk.Prelude.{
  ℕ, ◌+◌, ◌*◌, ◌/◌, ◌^◌, ◌==◌, Bool, not, ◌&&◌, if◌then◌else◌, Option, none, some, List, [], ◌∷◌,
  get_elem?, Result, ok, err, from_option, ◌>>=◌, type_error,
}
use dlmm_sdk.Prelude.Int.{ℤ, pos, ◌+ℤ◌, ◌-ℤ◌, ◌*ℤ◌, tdiv, eqb_ℤ}
use dlmm_sdk.Constants.{scale_offset}
use dlmm_sdk.Pair.{BinArray}
use dlmm_sdk.BinArray.Rewards.{RewardInfo, is_reward_initialized, reward_delta}
use dlmm_sdk.Positions.Listing.{BinLiquidity, get_bins_between_lower_and_upper_bound}

pub record UserFeeInfo : Type 0 where
  pub fee_x_per_token_complete : ℕ
  pub fee_y_per_token_complete : ℕ
  pub fee_x_pending : ℕ
  pub fee_y_pending : ℕ

pub record UserRewardInfo : Type 0 where
  pub reward_per_token_completes : List ℕ
  pub reward_pendings : List ℕ

-- What the position holds of a bin. The differences of stored fees and rewards may be negative.
pub record ProcessedBin : Type 0 where
  pub bin_id : ℤ
  pub bin_x_amount : ℕ
  pub bin_y_amount : ℕ
  pub bin_liquidity : ℕ
  pub position_liquidity : ℕ
  pub position_x_amount : ℕ
  pub position_y_amount : ℕ
  pub position_fee_x_amount : ℤ
  pub position_fee_y_amount : ℤ
  pub position_reward_one : ℤ
  pub position_reward_two : ℤ

-- The local totals of the loop.
pub record ProcessedTotals : Type 0 where
  pub total_x_amount : ℕ
  pub total_y_amount : ℕ
  pub fee_x : ℤ
  pub fee_y : ℤ
  pub reward_one : ℤ
  pub reward_two : ℤ

abbrev pub no_amounts : ProcessedTotals
no_amounts = record {
  total_x_amount = 0;
  total_y_amount = 0;
  fee_x = pos 0;
  fee_y = pos 0;
  reward_one = pos 0;
  reward_two = pos 0;
}

-- `mulShr` rounding down, of numbers that may be negative.
unfoldable pub mul_shr_ℤ : ℤ → ℤ → ℤ
mul_shr_ℤ x y = tdiv (x *ℤ y) (2 ^ scale_offset)

-- The part of an amount of a bin.
unfoldable pub position_amount : (supply share amount : ℕ) → ℕ
position_amount supply share amount = if supply == 0 then 0 else share * amount / supply

unfoldable pub claimable_fee : (share stored complete pending : ℕ) → ℤ
unfolding mul_shr_ℤ
claimable_fee share stored complete pending =
    mul_shr_ℤ (pos (share / 2 ^ scale_offset)) (pos stored -ℤ pos complete) +ℤ pos pending

-- What is stored of the reward at place `j`, up to the present in the active bin.
unfoldable pub stored_reward :
    (active_id unix_timestamp : ℤ) → BinLiquidity → ℕ → RewardInfo → Result ℤ
stored_reward active_id unix_timestamp bin j reward =
    let stored = from_option type_error (get_elem? bin.reward_per_token_stored j) in
    if eqb_ℤ bin.bin_id active_id && not (bin.supply == 0)
    then (do delta ← reward_delta bin.supply unix_timestamp reward; x ← stored; ok (x +ℤ delta))
    else stored

abbrev pub claimable_of : (share : ℕ) (stored : ℤ) (j : ℕ) → Option UserRewardInfo → Result ℤ
claimable_of share stored j none = err type_error
claimable_of share stored j (some info) = do
  complete ← from_option type_error (get_elem? info.reward_per_token_completes j)
  pending ← from_option type_error (get_elem? info.reward_pendings j)
  ok (mul_shr_ℤ (stored -ℤ pos complete) (pos (share / 2 ^ scale_offset)) +ℤ pos pending)

-- A round of the inner loop.
unfoldable pub claimable_reward :
    (active_id unix_timestamp : ℤ)
    → BinLiquidity
    → ℕ
    → ℕ
    → Option UserRewardInfo
    → RewardInfo
    → Result ℤ
claimable_reward active_id unix_timestamp bin share j info reward =
    if not (is_reward_initialized reward) then ok (pos 0) else (do
      stored ← stored_reward active_id unix_timestamp bin j reward
      claimable_of share stored j info)

-- The entry of a bin with its two rewards.
abbrev pub processed_bin :
    BinLiquidity → ℕ → UserFeeInfo → (reward_one reward_two : ℤ) → ProcessedBin
processed_bin bin share fee reward_one reward_two = record {
  bin_id = bin.bin_id;
  bin_x_amount = bin.x_amount;
  bin_y_amount = bin.y_amount;
  bin_liquidity = bin.supply;
  position_liquidity = share;
  position_x_amount = position_amount bin.supply share bin.x_amount;
  position_y_amount = position_amount bin.supply share bin.y_amount;
  position_fee_x_amount =
      claimable_fee share bin.fee_amount_x_per_token_stored fee.fee_x_per_token_complete
        fee.fee_x_pending;
  position_fee_y_amount =
      claimable_fee share bin.fee_amount_y_per_token_stored fee.fee_y_per_token_complete
        fee.fee_y_pending;
  position_reward_one = reward_one;
  position_reward_two = reward_two;
}

unfoldable pub process_bin :
    (active_id unix_timestamp : ℤ)
    → RewardInfo × RewardInfo
    → BinLiquidity
    → ℕ
    → UserFeeInfo
    → Option UserRewardInfo
    → Result ProcessedBin
process_bin active_id unix_timestamp rewards bin share fee info = do
  reward_one ← claimable_reward active_id unix_timestamp bin share 0 info rewards.0
  reward_two ← claimable_reward active_id unix_timestamp bin share 1 info rewards.1
  ok (processed_bin bin share fee reward_one reward_two)

abbrev pub head_of {ℓ} : {A : Type ℓ} → List A → Option A
head_of [] = none
head_of (x ∷ xs) = some x

abbrev pub tail_of {ℓ} : {A : Type ℓ} → List A → List A
tail_of [] = []
tail_of (x ∷ xs) = xs

module _ (add_decimal : ℕ → ℕ → ℕ) where
  unfoldable pub add_processed : ProcessedTotals → ProcessedBin → ProcessedTotals
  add_processed t b = record {
    total_x_amount = add_decimal t.total_x_amount b.position_x_amount;
    total_y_amount = add_decimal t.total_y_amount b.position_y_amount;
    fee_x = t.fee_x +ℤ b.position_fee_x_amount;
    fee_y = t.fee_y +ℤ b.position_fee_y_amount;
    reward_one = t.reward_one +ℤ b.position_reward_one;
    reward_two = t.reward_two +ℤ b.position_reward_two;
  }

  -- The loop over the bins, with the shares and infos from the place of the first one on.
  unfoldable pub process_bins :
      (active_id unix_timestamp : ℤ)
      → RewardInfo × RewardInfo
      → List BinLiquidity
      → List ℕ
      → List UserFeeInfo
      → List UserRewardInfo
      → ProcessedTotals
      → Result (List ProcessedBin × ProcessedTotals)
  process_bins active_id unix_timestamp rewards [] shares fees infos t = ok ([], t)
  process_bins active_id unix_timestamp rewards (bin ∷ bins) shares fees infos t = do
    share ← from_option type_error (head_of shares)
    fee ← from_option type_error (head_of fees)
    b ← process_bin active_id unix_timestamp rewards bin share fee (head_of infos)
    rest ←
        process_bins active_id unix_timestamp rewards bins (tail_of shares) (tail_of fees)
          (tail_of infos) (add_processed t b)
    ok (b ∷ rest.0, rest.1)

  abbrev process_listed :
      (active_id unix_timestamp : ℤ)
      → RewardInfo × RewardInfo
      → List BinLiquidity
      → List ℕ
      → List UserFeeInfo
      → List UserRewardInfo
      → Result (Option (List ProcessedBin × ProcessedTotals))
  process_listed active_id unix_timestamp rewards [] shares fees infos = ok none
  process_listed active_id unix_timestamp rewards (bin ∷ bins) shares fees infos = do
    p ← process_bins active_id unix_timestamp rewards (bin ∷ bins) shares fees infos no_amounts
    ok (some p)

  unfoldable pub process_position :
      (active_id unix_timestamp : ℤ)
      → RewardInfo × RewardInfo
      → (lower_bin_id upper_bin_id : ℤ) → List ℕ
      → List UserFeeInfo
      → List UserRewardInfo
      → List BinArray
      → Result (Option (List ProcessedBin × ProcessedTotals))
  process_position active_id unix_timestamp rewards lower_bin_id upper_bin_id shares fees infos
        bin_arrays =
      do
        bins ← get_bins_between_lower_and_upper_bound lower_bin_id upper_bin_id bin_arrays
        process_listed active_id unix_timestamp rewards bins shares fees infos
