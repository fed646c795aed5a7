-- ===== src/Examples/Weights.antt =====
-- Weights, shares and the amounts of a strategy at concrete data.
use native.Mathlib.Nat.{one-le-pow, mul-pos}
use dlmm_sdk.Prelude.{
  suc, ◌*◌, ◌^◌, List, All, ◌≡◌, refl, arith, none, some, ok, err, map, [], ◌∷◌,
  invalid_strategy_params,
}
use dlmm_sdk.Prelude.Int.{ℤ, pos, negsuc, pos_part, ◌+ℤ◌, ◌-ℤ◌, ◌*ℤ◌, ◌<ℤ◌, ◌≤ℤ◌}
use dlmm_sdk.Rebalance.{bin_range_to_bin_id_array}
use dlmm_sdk.Weights.{
  BinWeight, weights_from, curve_weight, diff_over, to_weight_curve, to_weight_bid_ask,
  to_weight_ascending_order, to_weight_spot_balanced,
}
use dlmm_sdk.Weights.Shapes.{IsOnCurve, weight_ids, reflect, to_weight_curve-to_weight_bid_ask}
use dlmm_sdk.Weights.Spot.{BinShare, calculate_spot_distribution, count_of}
use dlmm_sdk.Weights.Spot.Shares.{
  Sums, sum_shares, count_at, calculate_spot_distribution-two_sided,
  calculate_spot_distribution-one_sided,
}
use dlmm_sdk.Weights.Decimals.{read_bn, weight_per_price, get_price_of_bin_by_bin_id, sum_where}
use dlmm_sdk.Weights.Amounts.{
  bid_amount, to_amount_bid_side, last_id, active_bins, active_weights, scaled_amounts,
  smaller_scale, two_sided_amounts, to_amount_both_side,
}
use dlmm_sdk.Token.{
  TransferFee, calculate_transfer_fee_excluded_amount, calculate_transfer_fee_included_amount,
  calculate_inverse_fee, calculate_pre_fee_amount,
}
use dlmm_sdk.Examples.Fractions.{fractions, fractions_laws, both_positive}
use dlmm_sdk.Weights.Strategy.{Deposit, curve, to_amounts_both_side_by_strategy}
use dlmm_sdk.Weights.Strategy.Covers.{Covers}
use dlmm_sdk.Weights.Strategy.Parts.{IsPlaced, ArePrices}
use dlmm_sdk.Weights.Strategy.Placed.{to_amounts_both_side_by_strategy-Covers}
use dlmm_sdk.Token.RoundTrip.{program_fee}

-- The weights around bin 7.
curve_weights :
    to_weight_curve (pos 5) (pos 9) (pos 7)
    ≡ ok (
        record { bin_id = pos 5; weight = pos 200 }
        ∷ record { bin_id = pos 6; weight = pos 1100 }
        ∷ record { bin_id = pos 7; weight = pos 2000 }
        ∷ record { bin_id = pos 8; weight = pos 1100 }
        ∷ record { bin_id = pos 9; weight = pos 200 }
        ∷ [])
unfolding to_weight_curve weights_from curve_weight diff_over ◌+ℤ◌ ◌-ℤ◌ ◌*ℤ◌
curve_weights = refl

outside : to_weight_bid_ask (pos 5) (pos 9) (pos 4) ≡ err invalid_strategy_params
unfolding to_weight_bid_ask
outside = refl

to_weight_curve-to_weight_bid_ask_example :
    (weights : List BinWeight) × (to_weight_curve (pos 5) (pos 9) (pos 7) ≡ ok weights)
    × (to_weight_bid_ask (pos 5) (pos 9) (pos 7) ≡ ok (map reflect weights))
    × (weight_ids weights ≡ bin_range_to_bin_id_array (pos 5) (pos 9))
    × All (IsOnCurve (pos 7)) weights
to_weight_curve-to_weight_bid_ask_example =
    to_weight_curve-to_weight_bid_ask (pos 5) (pos 9) (pos 7) (omega arith) (omega arith)

abbrev around : List ℤ
around = negsuc 0 ∷ pos 0 ∷ pos 1 ∷ pos 2 ∷ []

once : count_at (pos 0) around ≡ 1
unfolding count_of
once = refl

calculate_spot_distribution-two_sided_example :
    (shares : List BinShare) × (calculate_spot_distribution (pos 0) around ≡ ok shares)
    × (map (λ b. b.bin_id) shares ≡ around)
    × (sum_shares (λ b. b.x_amount_bps_of_total) shares ≡ pos 10000)
    × (sum_shares (λ b. b.y_amount_bps_of_total) shares ≡ pos 10000)
calculate_spot_distribution-two_sided_example =
    calculate_spot_distribution-two_sided (pos 0) around once

never : count_at (pos 9) (pos 1 ∷ pos 2 ∷ pos 3 ∷ []) ≡ 0
unfolding count_of
never = refl

calculate_spot_distribution-one_sided_example :
    (shares : List BinShare) × (calculate_spot_distribution (pos 9) (pos 1 ∷ pos 2 ∷ pos 3 ∷ [])
      ≡ ok shares)
    × (map (λ b. b.bin_id) shares ≡ pos 1 ∷ pos 2 ∷ pos 3 ∷ [])
    × (pos 1 <ℤ pos 9 → Sums shares 0 9999)
    × (pos 9 ≤ℤ pos 1 → Sums shares 9999 0)
calculate_spot_distribution-one_sided_example =
    calculate_spot_distribution-one_sided (pos 9) (pos 1) (pos 2 ∷ pos 3 ∷ []) never

-- A deposit of both tokens around bin 7, at a step of 25 basis points.
abbrev deposit : Deposit
deposit = record {
  active_id = pos 7;
  bin_step = 25;
  min_bin_id = pos 5;
  max_bin_id = pos 9;
  amount_x = 3000;
  amount_y = 6000;
  amount_x_in_active_bin = 0;
  amount_y_in_active_bin = 0;
  mint_x = none;
  mint_y = none;
}

deposit_prices : ArePrices fractions deposit
unfolding weight_per_price get_price_of_bin_by_bin_id
deposit_prices i n above below =
    both_positive (suc n * 10000 ^ pos_part i) (1 * 10025 ^ pos_part i)
      (mul-pos (omega arith) (one-le-pow (pos_part i) 10000 (omega arith)))
      (mul-pos (omega arith) (one-le-pow (pos_part i) 10025 (omega arith)))

to_amounts_both_side_by_strategy-Covers_example :
    Covers
      (IsPlaced deposit)
      (pos 5)
      (pos 9)
      (to_amounts_both_side_by_strategy fractions program_fee deposit curve)
to_amounts_both_side_by_strategy-Covers_example =
    to_amounts_both_side_by_strategy-Covers fractions program_fee deposit curve fractions_laws
      (omega arith, omega arith, omega arith) deposit_prices (omega arith)

-- The Y of the deposit by the weights 1, 2 and 3 up to the active bin.
bid_amounts :
    to_amount_bid_side fractions program_fee
      (pos 7)
      6000
      (to_weight_ascending_order (pos 5) (pos 7))
      none
    ≡ ok (
        record { bin_id = pos 5; amount = pos 1000 }
        ∷ record { bin_id = pos 6; amount = pos 2000 }
        ∷ record { bin_id = pos 7; amount = pos 3000 }
        ∷ [])
unfolding to_amount_bid_side bid_amount read_bn sum_where to_weight_ascending_order weights_from
    calculate_transfer_fee_excluded_amount ◌+ℤ◌ ◌-ℤ◌
bid_amounts = refl

-- A transfer fee of one percent: the bins around the active one get more than the amounts, 1000 and
-- 1000, of the deposit.
one_percent : TransferFee
one_percent = record { transfer_fee_basis_points = 100; maximum_fee = 500 }

both_sides_exceed :
    to_amount_both_side fractions program_fee
      (pos 0)
      25
      1000
      1000
      0
      0
      (to_weight_spot_balanced (pos 0) (pos 0))
      (some one_percent)
      (some one_percent)
    ≡ ok (record { bin_id = pos 0; amount_x = pos 1011; amount_y = pos 1011 } ∷ [])
unfolding to_amount_both_side read_bn last_id two_sided_amounts active_bins scaled_amounts
    active_weights smaller_scale sum_where get_price_of_bin_by_bin_id to_weight_spot_balanced
    weights_from one_percent calculate_transfer_fee_included_amount calculate_inverse_fee
    calculate_pre_fee_amount
both_sides_exceed = refl
