-- ===== src/Examples/Data.antt =====
-- A small pair: one array of bins at a price of one, around the active bin.
use dlmm_sdk.Prelude.{ℕ, zero, suc, ◌^◌, List, [], ◌∷◌, ◌++◌, none}
use dlmm_sdk.Prelude.Int.{pos}
use dlmm_sdk.Pair.{Bin, BinArray, SParameters, VParameters, LbPair, BinArrayBitmapExtension}
use dlmm_sdk.Swap.ExactIn.{Fill}

abbrev pub repeated {ℓ} : {A : Type ℓ} → ℕ → A → List A
repeated zero a = []
repeated (suc n) a = a ∷ repeated n a

abbrev pub bin : Bin
bin = record {
  amount_x = 1000;
  amount_y = 500;
  price = 2 ^ 64;
  liquidity_supply = 0;
  fee_amount_x_per_token_stored = 0;
  fee_amount_y_per_token_stored = 0;
  reward_per_token_stored = [];
}

abbrev pub s : SParameters
s = record {
  base_factor = 10000;
  filter_period = 30;
  decay_period = 600;
  reduction_factor = 5000;
  variable_fee_control = 40000;
  max_volatility_accumulator = 350000;
  protocol_share = 500;
  base_fee_power_factor = 0;
}

abbrev pub v : VParameters
v = record {
  volatility_accumulator = 20000;
  volatility_reference = 10000;
  index_reference = pos 3;
  last_update_timestamp = pos 1000;
}

abbrev pub array : BinArray
array = record { index = pos 0; bins = repeated 70 bin }

-- The bit of index 0 is bit 512.
abbrev pub pair : LbPair
pair = record {
  parameters = s;
  v_parameters = v;
  active_id = pos 2;
  bin_step = 10;
  bin_array_bitmap = repeated 8 0 ++ 1 ∷ repeated 7 0;
}

abbrev pub extension : BinArrayBitmapExtension
extension = record {
  positive_bin_array_bitmap = repeated 12 (repeated 8 0);
  negative_bin_array_bitmap = repeated 12 (repeated 8 0);
}

abbrev pub fill : ℕ → Fill
fill amount = record {
  in_amount_left = amount;
  total_out_amount = 0;
  fee_amount = 0;
  protocol_fee_amount = 0;
  active_id = pos 2;
  v_parameters = v;
  start_bin = none;
  last_filled_active_bin_id = pos 2;
  bin_arrays_for_swap = [];
}
