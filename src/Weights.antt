-- ===== src/Weights.antt =====
-- ts-client/src/dlmm/helpers/strategy.ts: the weights that a strategy gives to the bins of a range, in
-- order of their ids. A weight is an integer, since the code computes it by subtraction.
pub mod Shapes
pub mod Spot
pub mod Decimals
pub mod Amounts
pub mod Strategy
use dlmm_sdk.Prelude.{
  ℕ, zero, suc, ◌+◌, ◌-◌, ◌/◌, ◌||◌, if◌then◌else◌, List, [], ◌∷◌, Result, err, ok, Error,
  invalid_strategy_params,
}
use dlmm_sdk.Prelude.Int.{ℤ, pos, pos_part, neg_part, ◌+ℤ◌, ◌-ℤ◌, ◌*ℤ◌, ltb_ℤ}
use dlmm_sdk.Positions.{ids_from_to}

abbrev pub default_max_weight : ℕ
default_max_weight = 2000

abbrev pub default_min_weight : ℕ
default_min_weight = 200

pub record BinWeight : Type 0 where
  pub bin_id : ℤ
  pub weight : ℤ

-- The loop up from a bin that all weights share, by the rounds left.
unfoldable pub weights_from : (ℤ → ℤ) → ℕ → ℤ → List BinWeight
weights_from weight zero i = []
weights_from weight (suc rounds) i =
    record { bin_id = i; weight = weight i } ∷ weights_from weight rounds (i +ℤ pos 1)

abbrev weights_between : (ℤ → ℤ) → ℤ → ℤ → List BinWeight
weights_between weight min_bin_id max_bin_id =
    weights_from weight (ids_from_to min_bin_id max_bin_id) min_bin_id

unfoldable pub to_weight_spot_balanced : ℤ → ℤ → List BinWeight
to_weight_spot_balanced min_bin_id max_bin_id = weights_between (λ i. pos 1) min_bin_id max_bin_id

unfoldable pub to_weight_descending_order : ℤ → ℤ → List BinWeight
to_weight_descending_order min_bin_id max_bin_id =
    weights_between (λ i. max_bin_id -ℤ i +ℤ pos 1) min_bin_id max_bin_id

unfoldable pub to_weight_ascending_order : ℤ → ℤ → List BinWeight
to_weight_ascending_order min_bin_id max_bin_id =
    weights_between (λ i. i -ℤ min_bin_id +ℤ pos 1) min_bin_id max_bin_id

-- The difference of the weights over a distance between ids, rounded down, where the distance is
-- positive.
unfoldable pub diff_over : ℤ → ℤ → ℤ
diff_over near far =
    if ltb_ℤ near far
    then pos (
        (default_max_weight - default_min_weight)
        / (pos_part far + neg_part near - (pos_part near + neg_part far)))
    else pos 0

-- The body of the loop of `toWeightCurve`: the weight of one bin.
unfoldable pub curve_weight : (min_bin_id max_bin_id active_id i : ℤ) → ℤ
unfolding diff_over
curve_weight min_bin_id max_bin_id active_id i =
    if ltb_ℤ i active_id
    then pos default_max_weight -ℤ (active_id -ℤ i) *ℤ diff_over min_bin_id active_id
    else if ltb_ℤ active_id i
    then pos default_max_weight -ℤ (i -ℤ active_id) *ℤ diff_over active_id max_bin_id
    else pos default_max_weight

unfoldable pub to_weight_curve : (min_bin_id max_bin_id active_id : ℤ) → Result (List BinWeight)
to_weight_curve min_bin_id max_bin_id active_id =
    if ltb_ℤ active_id min_bin_id || ltb_ℤ max_bin_id active_id
    then err invalid_strategy_params
    else ok (weights_between (curve_weight min_bin_id max_bin_id active_id) min_bin_id max_bin_id)

unfoldable pub bid_ask_weight : (min_bin_id max_bin_id active_id i : ℤ) → ℤ
unfolding diff_over
bid_ask_weight min_bin_id max_bin_id active_id i =
    if ltb_ℤ i active_id
    then pos default_min_weight +ℤ (active_id -ℤ i) *ℤ diff_over min_bin_id active_id
    else if ltb_ℤ active_id i
    then pos default_min_weight +ℤ (i -ℤ active_id) *ℤ diff_over active_id max_bin_id
    else pos default_min_weight

unfoldable pub to_weight_bid_ask : (min_bin_id max_bin_id active_id : ℤ) → Result (List BinWeight)
to_weight_bid_ask min_bin_id max_bin_id active_id =
    if ltb_ℤ active_id min_bin_id || ltb_ℤ max_bin_id active_id
    then err invalid_strategy_params
    else ok (weights_between (bid_ask_weight min_bin_id max_bin_id active_id) min_bin_id max_bin_id)
