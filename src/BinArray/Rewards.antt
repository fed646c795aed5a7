-- ===== src/BinArray/Rewards.antt =====
-- binArray.ts, `updateBinArray`: the rewards of the active bin up to the present. The clone that the
-- code makes is shallow: the bins that it changes are those of the array that it was given.
pub mod Growth
pub mod Others
use dlmm_sdk.Prelude.{
  ℕ, zero, suc, ◌/◌, ◌^◌, Bool, true, false, not, ◌==◌, if◌then◌else◌, Option, none, some, List, [],
  ◌∷◌, Result, ok, err, ◌>>=◌, assertion_failed, type_error, from_option,
}
use dlmm_sdk.Prelude.Int.{ℤ, pos, ◌+ℤ◌, ◌-ℤ◌, ◌*ℤ◌, nat_abs, tdiv, min_ℤ}
use dlmm_sdk.Constants.{scale_offset}
use dlmm_sdk.Pair.{Bin, BinArray}
use dlmm_sdk.BinArray.{get_bin_array_lower_upper_bin_id, get_bin_id_index_in_bin_array, item_at}

-- A reward is initialized if its mint is not the default key.
pub record RewardInfo : Type 0 where
  pub initialized : Bool
  pub reward_duration_end : ℕ
  pub reward_rate : ℕ
  pub last_update_time : ℕ

unfoldable pub is_reward_initialized : RewardInfo → Bool
is_reward_initialized reward = reward.initialized

-- What a round of the loop adds.
unfoldable pub reward_delta : ℕ → ℤ → RewardInfo → Result ℤ
reward_delta supply unix_timestamp reward =
    let current_time = min_ℤ unix_timestamp (pos reward.reward_duration_end) in
    let delta = current_time -ℤ pos reward.last_update_time in
    let liquidity_supply = supply / 2 ^ scale_offset in
    if liquidity_supply == 0
    then err assertion_failed
    else ok (tdiv (tdiv (pos reward.reward_rate *ℤ delta) 15) liquidity_supply)

-- The loop over the rewards and their places in the bin. A place that is not there is `undefined`.
unfoldable pub update_stored : ℕ → ℤ → List RewardInfo → List ℤ → Result (List ℤ)
update_stored supply unix_timestamp [] stored = ok stored
update_stored supply unix_timestamp (r ∷ rewards) [] =
    let rest = update_stored supply unix_timestamp rewards [] in
    if not (is_reward_initialized r)
    then rest
    else (do delta ← reward_delta supply unix_timestamp r; err type_error)
update_stored supply unix_timestamp (r ∷ rewards) (x ∷ stored) =
    let rest = update_stored supply unix_timestamp rewards stored in
    if not (is_reward_initialized r) then (do others ← rest; ok (x ∷ others)) else (do
      delta ← reward_delta supply unix_timestamp r
      others ← rest
      ok ((x +ℤ delta) ∷ others))

abbrev pub with_stored : Bin → List ℤ → Bin
with_stored bin stored = record {
  amount_x = bin.amount_x;
  amount_y = bin.amount_y;
  price = bin.price;
  liquidity_supply = bin.liquidity_supply;
  fee_amount_x_per_token_stored = bin.fee_amount_x_per_token_stored;
  fee_amount_y_per_token_stored = bin.fee_amount_y_per_token_stored;
  reward_per_token_stored = stored;
}

abbrev pub put_at {ℓ} : {A : Type ℓ} → List A → ℕ → A → List A
put_at [] i a = []
put_at (x ∷ xs) zero a = a ∷ xs
put_at (x ∷ xs) (suc i) a = x ∷ put_at xs i a

-- The active bin, from its place in the array.
unfoldable pub update_active_bin : ℤ → List RewardInfo → BinArray → ℤ → Result BinArray
update_active_bin unix_timestamp rewards bin_array bin_idx = do
  active_bin ← from_option type_error (item_at bin_array.bins bin_idx)
  if active_bin.liquidity_supply == 0 then ok bin_array else (do
    stored ←
        update_stored active_bin.liquidity_supply unix_timestamp rewards
          active_bin.reward_per_token_stored
    ok (record {
      index = bin_array.index;
      bins = put_at bin_array.bins (nat_abs bin_idx) (with_stored active_bin stored);
    }))

abbrev or_unchanged : BinArray → (ℤ → Result BinArray) → Option ℤ → Result BinArray
or_unchanged bin_array update none = ok bin_array
or_unchanged bin_array update (some bin_idx) = update bin_idx

unfoldable pub update_bin_array : ℤ → ℤ → List RewardInfo → BinArray → Result BinArray
update_bin_array active_id unix_timestamp rewards bin_array =
    let bounds = get_bin_array_lower_upper_bin_id bin_array.index in
    or_unchanged bin_array (update_active_bin unix_timestamp rewards bin_array)
      (get_bin_id_index_in_bin_array active_id bounds.0 bounds.1)
