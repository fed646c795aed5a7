-- ===== src/Pair.antt =====
-- ts-client/src/dlmm/types/index.ts: the accounts of a pair, in the fields that the modelled code
-- reads. Fields of unsigned types are natural numbers, those of signed types are integers.
use dlmm_sdk.Prelude.{ℕ, List}
use dlmm_sdk.Prelude.Int.{ℤ}

pub record Bin : Type 0 where
  pub amount_x : ℕ
  pub amount_y : ℕ
  -- Y per X, as a Q64.64 number.
  pub price : ℕ
  pub liquidity_supply : ℕ
  pub fee_amount_x_per_token_stored : ℕ
  pub fee_amount_y_per_token_stored : ℕ
  -- Integers, since the code adds differences of times to them.
  pub reward_per_token_stored : List ℤ

pub record BinArray : Type 0 where
  pub index : ℤ
  pub bins : List Bin

pub record SParameters : Type 0 where
  pub base_factor : ℕ
  pub filter_period : ℕ
  pub decay_period : ℕ
  pub reduction_factor : ℕ
  pub variable_fee_control : ℕ
  pub max_volatility_accumulator : ℕ
  pub protocol_share : ℕ
  pub base_fee_power_factor : ℕ

pub record VParameters : Type 0 where
  pub volatility_accumulator : ℕ
  pub volatility_reference : ℕ
  pub index_reference : ℤ
  pub last_update_timestamp : ℤ

-- The bitmap has one bit for each bin array of the indexes -512 to 511, in sixteen 64-bit words.
pub record LbPair : Type 0 where
  pub parameters : SParameters
  pub v_parameters : VParameters
  pub active_id : ℤ
  pub bin_step : ℕ
  pub bin_array_bitmap : List ℕ

-- The bits of the bin arrays beyond, in twelve chunks of eight words on each side.
pub record BinArrayBitmapExtension : Type 0 where
  pub positive_bin_array_bitmap : List (List ℕ)
  pub negative_bin_array_bitmap : List (List ℕ)
