-- ===== src/Weights/Amounts.antt =====
-- ts-client/src/dlmm/helpers/weightToAmounts.ts: the amounts that the bins of a distribution get. The
-- decimal numbers are those of a package: they are a parameter, as is the fee of the token program. A
-- mint is given by its transfer fee at the epoch of the clock.
pub mod Laws
pub mod Sides
use dlmm_sdk.Prelude.{
  ℕ, ◌==◌, ◌&&◌, Bool, true, false, if◌then◌else◌, not, List, [], ◌∷◌, map, Option, Result, err, ok,
  ◌>>=◌, type_error, invalid_parameters,
}
use dlmm_sdk.Prelude.Int.{ℤ, pos, ltb_ℤ, eqb_ℤ}
use dlmm_sdk.Token.{
  TransferFee, calculate_transfer_fee_excluded_amount, calculate_transfer_fee_included_amount,
}
use dlmm_sdk.Weights.{BinWeight}
use dlmm_sdk.Weights.Decimals.{
  Decimals, get_price_of_bin_by_bin_id, weight_per_price, sum_where, read_bn,
}

pub record BinAmount : Type 0 where
  pub bin_id : ℤ
  pub amount : ℤ

pub record BinAmounts : Type 0 where
  pub bin_id : ℤ
  pub amount_x : ℤ
  pub amount_y : ℤ

abbrev pub with_x : BinAmount → BinAmounts
with_x b = record { bin_id = b.bin_id; amount_x = b.amount; amount_y = pos 0 }

abbrev pub with_y : BinAmount → BinAmounts
with_y b = record { bin_id = b.bin_id; amount_x = pos 0; amount_y = b.amount }

abbrev pub map_ok {ℓ κ} : {S : Type ℓ} {T : Type κ} → (S → T) → Result S → Result T
map_ok f (err e) = err e
map_ok f (ok a) = ok (f a)

-- `map` with a function that may throw.
abbrev pub map_result {ℓ κ} : {S : Type ℓ} {T : Type κ} → (S → Result T) → List S → Result (List T)
map_result f [] = ok []
map_result f (x ∷ xs) = do y ← f x; ys ← map_result f xs; ok (y ∷ ys)

-- The bins at the active id.
unfoldable pub active_bins : ℤ → List BinWeight → List BinWeight
active_bins active_id [] = []
active_bins active_id (b ∷ bins) =
    let rest = active_bins active_id bins in if eqb_ℤ b.bin_id active_id then b ∷ rest else rest

-- The id of the last item, and of the only one.
unfoldable pub last_id : ℤ → List BinWeight → ℤ
last_id i [] = i
last_id i (b ∷ bins) = last_id b.bin_id bins

module _ (d : Decimals) where
  open d use {Decimal, from_int, add, mul, div, less_than}

  -- The amount of one bin of the bid side.
  unfoldable pub bid_amount : ℤ → ℕ → Decimal → BinWeight → Result BinAmount
  bid_amount active_id total_amount total_weight b =
      if ltb_ℤ active_id b.bin_id then ok (record { bin_id = b.bin_id; amount = pos 0 }) else (do
        amount ←
            read_bn d (mul (from_int (pos total_amount)) (div (from_int b.weight) total_weight))
        ok (record { bin_id = b.bin_id; amount = amount }))

  unfoldable pub ask_amount : ℤ → ℕ → ℕ → Decimal → BinWeight → Result BinAmount
  ask_amount active_id bin_step total_amount total_weight b =
      if ltb_ℤ b.bin_id active_id then ok (record { bin_id = b.bin_id; amount = pos 0 }) else (do
        amount ←
            read_bn d
              (div (mul (from_int (pos total_amount)) (weight_per_price d bin_step b)) total_weight)
        ok (record { bin_id = b.bin_id; amount = amount }))

  -- The weights of X and of Y of the active bin, by the amounts that it holds.
  unfoldable pub active_weights : Decimal → ℤ → (amount_x amount_y : ℕ) → Decimal × Decimal
  active_weights p0 weight amount_x amount_y =
      let x = from_int (pos amount_x) in
      let y = from_int (pos amount_y) in
      let w = from_int weight in
      if amount_x == 0 && amount_y == 0
      then (div w (mul p0 (from_int (pos 2))), div w (from_int (pos 2)))
      else (
        if amount_x == 0 then from_int (pos 0) else div w (add p0 (div y x)),
        if amount_y == 0
            then from_int (pos 0)
            else div w (add (from_int (pos 1)) (div (mul p0 x) y)),
      )

  -- The amounts of one bin at a price of the weight, with the amounts of the active bin.
  unfoldable pub scaled_amounts :
      ℤ → ℕ → Decimal → (wx0 wy0 : Decimal) → BinWeight → Result BinAmounts
  scaled_amounts active_id bin_step k wx0 wy0 b =
      if ltb_ℤ b.bin_id active_id
      then (do
        y ← read_bn d (mul k (from_int b.weight))
        ok (record { bin_id = b.bin_id; amount_x = pos 0; amount_y = y }))
      else if ltb_ℤ active_id b.bin_id
      then (do
        x ← read_bn d (mul k (weight_per_price d bin_step b))
        ok (record { bin_id = b.bin_id; amount_x = x; amount_y = pos 0 }))
      else (do
        x ← read_bn d (mul k wx0)
        y ← read_bn d (mul k wy0)
        ok (record { bin_id = b.bin_id; amount_x = x; amount_y = y }))

  -- The amounts around an active bin that is not among the bins, or is so more than once.
  unfoldable pub scaled_amounts_apart : ℤ → ℕ → Decimal → BinWeight → Result BinAmounts
  scaled_amounts_apart active_id bin_step k b =
      if ltb_ℤ b.bin_id active_id
      then (do
        y ← read_bn d (mul k (from_int b.weight))
        ok (record { bin_id = b.bin_id; amount_x = pos 0; amount_y = y }))
      else (do
        x ← read_bn d (mul k (weight_per_price d bin_step b))
        ok (record { bin_id = b.bin_id; amount_x = x; amount_y = pos 0 }))

  -- The smaller of the two scales.
  unfoldable pub smaller_scale : (amount_x amount_y : ℕ) → (total_x total_y : Decimal) → Decimal
  smaller_scale amount_x amount_y total_x total_y =
      let kx = div (from_int (pos amount_x)) total_x in
      let ky = div (from_int (pos amount_y)) total_y in if less_than kx ky then kx else ky

  -- The part of `toAmountBothSide` behind the tests of the sides, by the bins at the active id.
  unfoldable pub two_sided_amounts :
      ℤ
      → ℕ
      → (amount_x amount_y amount_x_in_active_bin amount_y_in_active_bin : ℕ) → List BinWeight
      → List BinWeight
      → Result (List BinAmounts)
  two_sided_amounts active_id bin_step amount_x amount_y x_in y_in distributions (active_bin ∷ []) =
      let p0 = get_price_of_bin_by_bin_id d active_id bin_step in
      let (wx0, wy0) = active_weights p0 active_bin.weight x_in y_in in
      let total_weight_x =
        sum_where d (λ b. ltb_ℤ active_id b.bin_id) (weight_per_price d bin_step) wx0
          distributions in
      let total_weight_y =
        sum_where d (λ b. ltb_ℤ b.bin_id active_id) (λ b. from_int b.weight) wy0 distributions in
      let k = smaller_scale amount_x amount_y total_weight_x total_weight_y in
      map_result (scaled_amounts active_id bin_step k wx0 wy0) distributions
  two_sided_amounts active_id bin_step amount_x amount_y x_in y_in distributions bins =
      let total_weight_x =
        sum_where d (λ b. not (ltb_ℤ b.bin_id active_id)) (weight_per_price d bin_step)
          (from_int (pos 0)) distributions in
      let total_weight_y =
        sum_where d (λ b. ltb_ℤ b.bin_id active_id) (λ b. from_int b.weight) (from_int (pos 0))
          distributions in
      let k = smaller_scale amount_x amount_y total_weight_x total_weight_y in
      map_result (scaled_amounts_apart active_id bin_step k) distributions

module _ (d : Decimals) (calculate_fee : TransferFee → ℕ → ℕ) where
  open d use {from_int, is_positive}

  unfoldable pub to_amount_bid_side :
      ℤ → ℕ → List BinWeight → Option TransferFee → Result (List BinAmount)
  to_amount_bid_side active_id amount distributions mint_y =
      let total_amount =
        (calculate_transfer_fee_excluded_amount calculate_fee mint_y amount).amount in
      let total_weight =
        sum_where d (λ b. not (ltb_ℤ active_id b.bin_id)) (λ b. from_int b.weight)
          (from_int (pos 0)) distributions in
      if is_positive total_weight
      then map_result (bid_amount d active_id total_amount total_weight) distributions
      else err invalid_parameters

  unfoldable pub to_amount_ask_side :
      ℤ → ℕ → ℕ → List BinWeight → Option TransferFee → Result (List BinAmount)
  to_amount_ask_side active_id bin_step amount distributions mint_x =
      let total_amount =
        (calculate_transfer_fee_excluded_amount calculate_fee mint_x amount).amount in
      let total_weight =
        sum_where d (λ b. not (ltb_ℤ b.bin_id active_id)) (weight_per_price d bin_step)
          (from_int (pos 0)) distributions in
      if is_positive total_weight
      then map_result (ask_amount d active_id bin_step total_amount total_weight) distributions
      else err invalid_parameters

  -- The amounts behind the tests of the sides are those with the transfer fee.
  unfoldable pub to_amount_both_side :
      ℤ
      → ℕ
      → (amount_x amount_y amount_x_in_active_bin amount_y_in_active_bin : ℕ) → List BinWeight
      → (mint_x mint_y : Option TransferFee) → Result (List BinAmounts)
  to_amount_both_side active_id bin_step amount_x amount_y x_in y_in [] mint_x mint_y =
      err type_error
  to_amount_both_side active_id bin_step amount_x amount_y x_in y_in (first ∷ bins) mint_x mint_y =
      let distributions = first ∷ bins in
      if ltb_ℤ (last_id first.bin_id bins) active_id
      then map_ok (map with_y) (to_amount_bid_side active_id amount_y distributions mint_y)
      else if ltb_ℤ active_id first.bin_id
      then map_ok (map with_x) (to_amount_ask_side active_id bin_step amount_x distributions mint_x)
      else (let x = (calculate_transfer_fee_included_amount calculate_fee mint_x amount_x).amount in
          let y = (calculate_transfer_fee_included_amount calculate_fee mint_y amount_y).amount in
          two_sided_amounts d active_id bin_step x y x_in y_in distributions
            (active_bins active_id distributions))
