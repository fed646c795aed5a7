-- ===== src/Rebalance/Balanced/Plan.antt =====
-- strategy/balanced.ts: what the plan of the balanced strategy does with the amounts and the width of a
-- position, and that it passes the checks of the simulation.
use native.Mathlib.Nat.{mul-le-mul, le_refl}
use dlmm_sdk.Prelude.{
  ℕ, ◌+◌, ◌-◌, ◌*◌, ◌/◌, ◌%◌, ◌^◌, ◌≤◌, ◌<◌, ◌==◌, ◌≡◌, refl, inl, inr, arith, Bool, true, false,
  Bool-cases, if◌then◌else◌, some, ok, List, [], ◌∷◌, lt→ltb, le→ltb-false, ltb-false→le, ==→eq,
}
use dlmm_sdk.Prelude.Int.{
  ℤ, pos, pos_part, neg_ℤ, ◌-ℤ◌, ◌≤ℤ◌, ◌<ℤ◌, tdiv, ltb_ℤ, int_laws, parts_exclusive, pos_mul,
}
use dlmm_sdk.Positions.{ids_from_to}
use dlmm_sdk.Weights.Strategy.{spot}
use dlmm_sdk.Rebalance.{RebalanceWithDeposit, RebalanceWithWithdraw}
use dlmm_sdk.Rebalance.Amounts.{to_amount_into_bins}
use dlmm_sdk.Rebalance.Order.{
  validate_and_sort_rebalance_withdraw, validate_and_sort_rebalance_deposit, sort_by, insert_by,
  fill_withdraws, check_overlap, are_apart_from, are_deposits_valid,
}
use dlmm_sdk.Rebalance.Liquidity.Spot.Shares.{last_price}
use dlmm_sdk.Rebalance.Liquidity.Spot.Within.{weaken}
use dlmm_sdk.Rebalance.Liquidity.{LiquidityStrategyParameters}
use dlmm_sdk.Rebalance.Liquidity.Within.{
  DepositsWithin, build_liquidity_strategy_parameters-IsWithin,
}
use dlmm_sdk.Rebalance.Balanced.{
  BalancedStrategyBuilder, RebalanceDepositWithdrawParameters, cap_bps, max_bps, deposit_amount,
  bin_per_bid, bin_per_ask, width_of, min_delta_of, max_delta_of, parameters_of,
  get_liquidity_strategy_parameter_builder, build_rebalance_strategy_parameters,
}

cap_bps_bounds : (bps : ℤ) → (n : ℕ) × (cap_bps bps ≡ pos n) × (n ≤ 10000)
unfolding cap_bps
cap_bps_bounds bps = elim (Bool-cases (ltb_ℤ bps (pos 0))) [
  | inl below ↦ (0, rw below refl, omega arith)
  | inr least ↦ elim (Bool-cases (ltb_ℤ max_bps bps)) [
    | inl above ↦ (10000, rw (least, above) refl, omega arith)
    | inr most ↦ (
      pos_part bps,
      rw (least, most) (ground arith),
      omega (arith, ltb-false→le _ _ most, ltb-false→le _ _ least, parts_exclusive bps),
    )
  ]
]

-- What is deposited is at most the top-up with all that is withdrawn.
deposit_amount_bounds :
    (top_up total fee : ℕ) (bps : ℤ)
    → (a : ℕ) × (deposit_amount top_up total fee bps ≡ pos a) × (a ≤ top_up + (total + fee))
unfolding deposit_amount tdiv
deposit_amount_bounds top_up total fee bps =
    let (n, e, small) = cap_bps_bounds bps in
    let out = total + fee in
    let left : max_bps -ℤ pos n ≡ pos (10000 - n) = omega (int_laws, small) in
    let part : out * (10000 - n) ≤ out * 10000 = mul-le-mul (le_refl out) (omega arith) in
    (
      top_up + out * (10000 - n) / 10000,
      rw (e, left, pos_mul out (10000 - n)) (omega int_laws),
      omega (arith, part),
    )

-- The bins of both sides and the active one.
sides_width :
    (w : ℕ) (favor : Bool)
    → 2 ≤ w
    → (neg_ℤ (bin_per_bid w favor) <ℤ bin_per_ask w favor)
      × (ids_from_to (neg_ℤ (bin_per_bid w favor)) (bin_per_ask w favor)
          ≡ (if w % 2 == 0 then w + 1 else w))
unfolding bin_per_bid bin_per_ask
sides_width w true h = elim (Bool-cases (w % 2 == 0)) [
  | inl even ↦ rw even (omega (int_laws, ==→eq _ _ even), omega (int_laws, ==→eq _ _ even))
  | inr odd ↦
      let one : w % 2 ≡ 1 = ground arith in rw odd (omega (int_laws, one), omega (int_laws, one))
]
sides_width w false h = elim (Bool-cases (w % 2 == 0)) [
  | inl even ↦ rw even (omega (int_laws, ==→eq _ _ even), omega (int_laws, ==→eq _ _ even))
  | inr odd ↦
      let one : w % 2 ≡ 1 = ground arith in rw odd (omega (int_laws, one), omega (int_laws, one))
]

deposits_pass :
    (d : RebalanceWithDeposit)
    → d.min_delta_id <ℤ d.max_delta_id
    → validate_and_sort_rebalance_deposit (d ∷ []) ≡ ok (d ∷ [])
unfolding validate_and_sort_rebalance_deposit sort_by insert_by are_deposits_valid check_overlap
    are_apart_from
deposits_pass d h = rw (lt→ltb _ _ h) refl

withdraws_pass :
    (lo hi active : ℤ)
    → lo ≤ℤ hi
    → let ws : List RebalanceWithWithdraw =
        record { min_bin_id = some lo; max_bin_id = some hi; bps = max_bps } ∷ [] in
      validate_and_sort_rebalance_withdraw ws active ≡ ok ws
unfolding validate_and_sort_rebalance_withdraw fill_withdraws sort_by insert_by check_overlap
    are_apart_from
withdraws_pass lo hi active h = rw (le→ltb-false _ _ h) refl

-- What a plan promises: it claims, withdraws the whole position and deposits once; both pass the checks
-- of the simulation as they are; the deposit is as wide as the position, or one bin wider where that
-- is even; and the amounts of its bins add up to at most `a` of X and `b` of Y.
pub record IsPlan (s : BalancedStrategyBuilder) (a b : ℕ) (p : RebalanceDepositWithdrawParameters)
    : Type 0 where
  pub deposit : RebalanceWithDeposit
  pub deposits_once : p.deposits ≡ deposit ∷ []
  pub withdraws_all :
      p.withdraws
      ≡ record {
        min_bin_id = some s.lower_bin_id;
        max_bin_id = some s.upper_bin_id;
        bps = pos 10000;
      }
        ∷ []
  pub deposits_valid : validate_and_sort_rebalance_deposit p.deposits ≡ ok p.deposits
  pub withdraws_valid :
      validate_and_sort_rebalance_withdraw p.withdraws s.active_id ≡ ok p.withdraws
  pub width :
      ids_from_to deposit.min_delta_id deposit.max_delta_id
      ≡ (if width_of s % 2 == 0 then width_of s + 1 else width_of s)
  pub within : DepositsWithin a b (
      to_amount_into_bins s.active_id deposit.min_delta_id deposit.max_delta_id deposit.delta_x
        deposit.delta_y deposit.x0 deposit.y0 s.bin_step deposit.favor_x_in_active_bin)

parameters_of-IsPlan :
    (s : BalancedStrategyBuilder) (a b : ℕ) (q : LiquidityStrategyParameters)
    → s.lower_bin_id <ℤ s.upper_bin_id
    → DepositsWithin a b (
        to_amount_into_bins s.active_id
          (min_delta_of s)
          (max_delta_of s)
          q.delta_x
          q.delta_y
          q.x0
          q.y0
          s.bin_step
          s.favor_x_in_active_bin)
    → IsPlan s a b (parameters_of s q)
unfolding parameters_of
parameters_of-IsPlan s a b q wide within =
    let (order, width) = sides_width (width_of s) s.favor_x_if_imbalance (omega (arith, wide)) in
    record {
      deposit = record {
        min_delta_id = min_delta_of s;
        max_delta_id = max_delta_of s;
        x0 = q.x0;
        y0 = q.y0;
        delta_x = q.delta_x;
        delta_y = q.delta_y;
        favor_x_in_active_bin = s.favor_x_in_active_bin;
      };
      deposits_once = refl;
      withdraws_all = refl;
      deposits_valid = deposits_pass _ order;
      withdraws_valid =
          withdraws_pass s.lower_bin_id s.upper_bin_id s.active_id (omega (arith, wide));
      width = width;
      within = within;
    }

-- For a position of two bins at least and the spot strategy, with a price of the last bin that is not
-- zero and enough fuel, `buildRebalanceStrategyParameters` of the balanced strategy returns a plan that
-- withdraws the whole position and deposits once, that passes the checks of the simulation unchanged,
-- over as many bins as the position has, or one more where that number is even; the amounts that
-- `toAmountIntoBins` gives these bins add up to at most the top-up with the amounts and fees of the
-- position, for both tokens.
pub build_rebalance_strategy_parameters-IsPlan :
    (fuel : ℕ) (s : BalancedStrategyBuilder)
    → s.strategy ≡ spot
    → s.lower_bin_id <ℤ s.upper_bin_id
    → (s.top_up_amount_x + (s.total_x_amount + s.fee_x)) * 2 ^ 64 < fuel
    → 0 < last_price (max_delta_of s) s.bin_step s.active_id
    → (p : RebalanceDepositWithdrawParameters) × (build_rebalance_strategy_parameters fuel s
        ≡ some (ok p))
      × IsPlan s
          (s.top_up_amount_x + (s.total_x_amount + s.fee_x))
          (s.top_up_amount_y + (s.total_y_amount + s.fee_y))
          p
unfolding build_rebalance_strategy_parameters get_liquidity_strategy_parameter_builder
build_rebalance_strategy_parameters-IsPlan fuel s flat wide enough price =
    let (a, ea, la) =
      deposit_amount_bounds s.top_up_amount_x s.total_x_amount s.fee_x s.x_withdraw_bps in
    let (b, eb, lb) =
      deposit_amount_bounds s.top_up_amount_y s.total_y_amount s.fee_y s.y_withdraw_bps in
    let (order, width) = sides_width (width_of s) s.favor_x_if_imbalance (omega (arith, wide)) in
    let (q, built, (bins, wrote, within)) =
      build_liquidity_strategy_parameters-IsWithin a b fuel s.bin_step s.active_id (min_delta_of s)
        (max_delta_of s) s.favor_x_in_active_bin (omega (arith, la, enough)) price
        (omega (arith, order)) in
    (
      parameters_of s q,
      rw (flat, ea, eb, built) refl,
      parameters_of-IsPlan s _ _ q wide (bins, wrote, weaken a b _ _ _ la lb within),
    )
