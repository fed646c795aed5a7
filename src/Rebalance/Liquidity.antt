-- ===== src/Rebalance/Liquidity.antt =====
-- ts-client/src/dlmm/helpers/rebalance/liquidity_strategy/index.ts, `buildLiquidityStrategyParameters`:
-- the parameters of a deposit over a range, by the builder of a strategy. A builder's loops take fuel,
-- so that its calls may run out of it.
pub mod Sums
pub mod Spot
pub mod Curve
pub mod BidAsk
pub mod Within
use dlmm_sdk.Prelude.{
  ℕ, Bool, ◌&&◌, ◌||◌, not, if◌then◌else◌, Option, none, some, Result, err, ok, Fueled, List, [],
  ◌∷◌,
}
use dlmm_sdk.Prelude.Int.{ℤ, pos, negsuc, ◌+ℤ◌, ltb_ℤ, is_zero_ℤ}
use dlmm_sdk.Rebalance.Amounts.{AmountIntoBin}

pub record LiquidityStrategyParameters : Type 0 where
  pub x0 : ℤ
  pub y0 : ℤ
  pub delta_x : ℤ
  pub delta_y : ℤ

pub record BidAskParameters : Type 0 where
  pub base : ℤ
  pub delta : ℤ

abbrev pub no_parameters : BidAskParameters
no_parameters = record { base = pos 0; delta = pos 0 }

-- The two methods of a builder that its clients of this file call.
pub record LiquidityStrategyParameterBuilder : Type 0 where
  pub find_x_parameters :
      (amount_x min_delta_id max_delta_id : ℤ)
      → (bin_step : ℕ) → (active_id : ℤ) → Fueled BidAskParameters
  pub find_y_parameters :
      (amount_y min_delta_id max_delta_id active_id : ℤ) → Fueled BidAskParameters

-- What runs out of fuel or throws does so for the rest.
abbrev pub after {ℓ κ} : {S : Type ℓ} {T : Type κ} → Fueled S → (S → Fueled T) → Fueled T
after none next = none
after (some (err e)) next = some (err e)
after (some (ok a)) next = next a

-- `reduce` of an array of amounts to the sum of one field.
unfoldable pub reduce_amounts : (AmountIntoBin → ℤ) → ℤ → List AmountIntoBin → ℤ
reduce_amounts field acc [] = acc
reduce_amounts field acc (b ∷ bins) = reduce_amounts field (acc +ℤ field b) bins

abbrev with_y_alone : BidAskParameters → LiquidityStrategyParameters
with_y_alone y = record { x0 = pos 0; y0 = y.base; delta_x = pos 0; delta_y = y.delta }

abbrev with_x_alone : BidAskParameters → LiquidityStrategyParameters
with_x_alone x = record { x0 = x.base; y0 = pos 0; delta_x = x.delta; delta_y = pos 0 }

abbrev with_both : BidAskParameters → BidAskParameters → LiquidityStrategyParameters
with_both y x = record { x0 = x.base; y0 = y.base; delta_x = x.delta; delta_y = y.delta }

unfoldable pub build_liquidity_strategy_parameters :
    (amount_x amount_y min_delta_id max_delta_id : ℤ)
    → (bin_step : ℕ) → (favor_x_in_active_id : Bool) → (active_id : ℤ)
    → LiquidityStrategyParameterBuilder
    → Fueled LiquidityStrategyParameters
build_liquidity_strategy_parameters amount_x amount_y min_delta_id max_delta_id bin_step favor
      active_id builder =
    let deposit_only_y = ltb_ℤ max_delta_id (pos 0) || (is_zero_ℤ max_delta_id && not favor) in
    let deposit_only_x = ltb_ℤ (pos 0) min_delta_id || (is_zero_ℤ min_delta_id && favor) in
    let find_y = builder.find_y_parameters amount_y min_delta_id in
    let find_x = builder.find_x_parameters amount_x in
    if ltb_ℤ max_delta_id min_delta_id
    then some (ok (record { x0 = pos 0; y0 = pos 0; delta_x = pos 0; delta_y = pos 0 }))
    else if deposit_only_y
    then after (find_y max_delta_id active_id) (λ y. some (ok (with_y_alone y)))
    else if deposit_only_x
    then after (find_x min_delta_id max_delta_id bin_step active_id)
        (λ x. some (ok (with_x_alone x)))
    else after (find_y (if favor then negsuc 0 else pos 0) active_id) (λ y.
      after (find_x (if favor then pos 0 else pos 1) max_delta_id bin_step active_id)
        (λ x. some (ok (with_both y x))))
