-- ===== src/Rebalance/Liquidity/Within.antt =====
-- rebalance/liquidity_strategy: the amounts of the bins of a spot deposit, by the parameters that
-- `buildLiquidityStrategyParameters` finds, against the amounts of the deposit.
use dlmm_sdk.Prelude.{
  ℕ, zero, suc, ◌*◌, ◌/◌, ◌^◌, ◌≤◌, ◌<◌, ◌≡◌, refl, inl, inr, arith, Bool, true, false, not, ◌&&◌,
  ◌||◌, if◌then◌else◌, Bool-cases, ◌++◌, List, some, Result, ok, le→ltb-false, ltb-false→le,
  leb-false→lt,
}
use dlmm_sdk.Prelude.Int.{ℤ, pos, negsuc, ◌+ℤ◌, ◌≤ℤ◌, ltb_ℤ, is_zero_ℤ}
use dlmm_sdk.Math.{get_q_price_base_factor}
use dlmm_sdk.Positions.{ids_from_to}
use dlmm_sdk.Rebalance.Amounts.{
  AmountIntoBin, get_amount_in_bins_bid_side, to_amount_into_bins, only_deposit_to_bid_side,
  only_deposit_to_ask_side,
}
use dlmm_sdk.Rebalance.Amounts.Asks.{asks}
use dlmm_sdk.Rebalance.Liquidity.{LiquidityStrategyParameters, build_liquidity_strategy_parameters}
use dlmm_sdk.Rebalance.Liquidity.Spot.{find_y0, find_x0, spot_builder, flat}
use dlmm_sdk.Rebalance.Liquidity.Spot.Shares.{last_price, range_shares, flat_asks}
use dlmm_sdk.Rebalance.Liquidity.Spot.Finds.{
  share_sum_zero, find_x0_zero, find_x0_finds, find_y0_lem,
}
use dlmm_sdk.Rebalance.Liquidity.Spot.Within.{
  IsWithin, bid-IsWithin, ask-IsWithin, append-IsWithin, weaken,
}

-- What a spot deposit of X finds over a range.
abbrev FindsX : (a fuel step : ℕ) → (active lo hi : ℤ) → Type 0
FindsX a fuel step active lo hi =
    (x : ℕ) × (flat (find_x0 fuel (pos a) lo hi step active)
      ≡ some (ok (record { base = pos x; delta = pos 0 })))
    × (range_shares lo hi step active x ≤ a)

spot_x :
    (a fuel step : ℕ) (active lo hi : ℤ)
    → a * 2 ^ 64 < fuel
    → 0 < last_price hi step active
    → lo ≤ℤ hi
    → FindsX a fuel step active lo hi
spot_x zero fuel step active lo hi enough price fits = (
  0,
  rw (find_x0_zero fuel lo hi step active fits) refl,
  omega (
    arith,
    share_sum_zero (ids_from_to (active +ℤ lo) (active +ℤ hi)) (get_q_price_base_factor step)
        (last_price hi step active),
  ),
)
spot_x (suc a) fuel step active lo hi enough price fits =
    let (r, e, (fit, reached)) =
      find_x0_finds (suc a) lo hi step active (omega arith) fits price fuel enough in
    (r, rw e refl, fit)

-- The tests of the build are those of the deposit.
only_y-same :
    (hi : ℤ) (favor : Bool)
    → (ltb_ℤ hi (pos 0) || (is_zero_ℤ hi && not favor)) ≡ only_deposit_to_bid_side hi favor
unfolding only_deposit_to_bid_side
only_y-same (pos n) true = ground arith
only_y-same (pos n) false = ground arith
only_y-same (negsuc n) true = ground arith
only_y-same (negsuc n) false = ground arith

only_x-same :
    (lo : ℤ) (favor : Bool)
    → (ltb_ℤ (pos 0) lo || (is_zero_ℤ lo && favor)) ≡ only_deposit_to_ask_side lo favor
unfolding only_deposit_to_ask_side
only_x-same (pos n) true = ground arith
only_x-same (pos n) false = ground arith
only_x-same (negsuc n) true = ground arith
only_x-same (negsuc n) false = ground arith

-- The last bin of the bid side and the first of the ask side.
abbrev end_of : Bool → ℤ
end_of favor = if favor then negsuc 0 else pos 0

abbrev start_of : Bool → ℤ
start_of favor = if favor then pos 0 else pos 1

starts_by_hi :
    (hi : ℤ) (favor : Bool) → only_deposit_to_bid_side hi favor ≡ false → start_of favor ≤ℤ hi
unfolding only_deposit_to_bid_side
starts_by_hi hi true h = omega (arith, ltb-false→le _ _ h)
starts_by_hi hi false h = omega (arith, leb-false→lt _ _ h)

ends_from_lo :
    (lo : ℤ) (favor : Bool) → only_deposit_to_ask_side lo favor ≡ false → lo ≤ℤ end_of favor
unfolding only_deposit_to_ask_side
ends_from_lo lo true h = omega (arith, leb-false→lt _ _ h)
ends_from_lo lo false h = omega (arith, ltb-false→le _ _ h)

-- The amounts of a deposit, which does not throw, are within those given.
abbrev pub DepositsWithin : (a b : ℕ) → Result (List AmountIntoBin) → Type 0
DepositsWithin a b r = (bins : List AmountIntoBin) × (r ≡ ok bins) × IsWithin a b bins

-- The build returns, and the amounts of its parameters are within those of the deposit.
abbrev pub BuildsWithin : (a b fuel step : ℕ) → (active lo hi : ℤ) → Bool → Type 0
BuildsWithin a b fuel step active lo hi favor =
    (p : LiquidityStrategyParameters) × (build_liquidity_strategy_parameters (pos a) (pos b) lo hi
        step favor active (spot_builder fuel)
      ≡ some (ok p))
    × DepositsWithin a b (to_amount_into_bins active lo hi p.delta_x p.delta_y p.x0 p.y0 step favor)

module _ (a b fuel step : ℕ) (active lo hi : ℤ) (enough : a * 2 ^ 64 < fuel)
    (price : 0 < last_price hi step active) (fits : lo ≤ℤ hi) where
  both-IsWithin :
      (end start : ℤ)
      → lo ≤ℤ end
      → start ≤ℤ hi
      → (x : ℕ) × (flat (find_x0 fuel (pos a) start hi step active)
          ≡ some (ok (record { base = pos x; delta = pos 0 })))
        × (find_y0 (pos b) lo end ≡ ok (pos (b / ids_from_to lo end)))
        × IsWithin a b (
            get_amount_in_bins_bid_side active lo end (pos 0) (pos (b / ids_from_to lo end))
            ++ asks active step start hi (pos 0) (pos x))
  both-IsWithin end start below above =
      let (x, e, fit) = spot_x a fuel step active start hi enough price above in
      (
        x,
        e,
        find_y0_lem b lo end below,
        append-IsWithin a b _ _ (bid-IsWithin b lo end active below)
            (ask-IsWithin a x start hi step active fit),
      )

  builds : (favor : Bool) → BuildsWithin a b fuel step active lo hi favor
  unfolding build_liquidity_strategy_parameters to_amount_into_bins spot_builder
  builds favor =
      let range : ltb_ℤ hi lo ≡ false = le→ltb-false _ _ fits in
      elim (Bool-cases (only_deposit_to_bid_side hi favor)) [
        | inl bid ↦
            let y = b / ids_from_to lo hi in
            (
              record { x0 = pos 0; y0 = pos y; delta_x = pos 0; delta_y = pos 0 },
              rw (range, only_y-same hi favor, bid, find_y0_lem b lo hi fits) refl,
              rw bid (
                _,
                refl,
                weaken 0 b a b _ (omega arith) (omega arith) (bid-IsWithin b lo hi active fits),
              ),
            )
        | inr not_bid ↦ elim (Bool-cases (only_deposit_to_ask_side lo favor)) [
          | inl ask ↦
              let (x, e, fit) = spot_x a fuel step active lo hi enough price fits in
              (
                record { x0 = pos x; y0 = pos 0; delta_x = pos 0; delta_y = pos 0 },
                rw (range, only_y-same hi favor, not_bid, only_x-same lo favor, ask, e) refl,
                rw (not_bid, ask)
                    (
                      asks active step lo hi (pos 0) (pos x),
                      flat_asks active step lo hi x fits,
                      weaken a 0 a b _ (omega arith) (omega arith)
                          (ask-IsWithin a x lo hi step active fit),
                    ),
              )
          | inr not_ask ↦
              let (x, e, ey, within) =
                both-IsWithin (end_of favor) (start_of favor) (ends_from_lo lo favor not_ask)
                  (starts_by_hi hi favor not_bid) in
              (
                record {
                  x0 = pos x;
                  y0 = pos (b / ids_from_to lo (end_of favor));
                  delta_x = pos 0;
                  delta_y = pos 0;
                },
                rw (range, only_y-same hi favor, not_bid, only_x-same lo favor, not_ask, ey, e)
                    refl,
                rw
                    (
                      not_bid,
                      not_ask,
                      flat_asks active step (start_of favor) hi x (starts_by_hi hi favor not_bid),
                    )
                    (_, refl, within),
              )
        ]
      ]

-- For a range that is not empty, a price of its last bin that is not zero, and fuel above the amount
-- of X in Q64.64 units, `buildLiquidityStrategyParameters` with the builder of the spot strategy
-- returns parameters, on whichever side of the active bin the range lies; and the amounts that
-- `toAmountIntoBins` gives the bins for these parameters add up to at most the amount of X and at
-- most the amount of Y.
pub build_liquidity_strategy_parameters-IsWithin :
    (a b fuel step : ℕ) (active lo hi : ℤ) (favor : Bool)
    → a * 2 ^ 64 < fuel
    → 0 < last_price hi step active
    → lo ≤ℤ hi
    → BuildsWithin a b fuel step active lo hi favor
build_liquidity_strategy_parameters-IsWithin a b fuel step active lo hi favor enough price fits =
    builds a b fuel step active lo hi enough price fits favor
