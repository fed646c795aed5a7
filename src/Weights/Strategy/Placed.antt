-- ===== src/Weights/Strategy/Placed.antt =====
-- strategy.ts, `toAmountsBothSideByStrategy`: where the tokens of a deposit go.
use dlmm_sdk.Prelude.{
  ℕ, ◌≡◌, ◌≢◌, refl, inl, inr, arith, true, false, List, [], ◌∷◌, All, Bool-cases, lt→ltb,
  le→ltb-false, ltb-false→le, le→leb, ==→eq, ◌==◌,
}
use dlmm_sdk.Prelude.Int.{ℤ, pos, ◌+ℤ◌, ◌-ℤ◌, ◌<ℤ◌, ◌≤ℤ◌, ltb_ℤ, ltb_ℤ→lt, int_laws}
use dlmm_sdk.Token.{TransferFee}
use dlmm_sdk.Weights.{BinWeight}
use dlmm_sdk.Weights.Decimals.{Decimals}
use dlmm_sdk.Weights.Amounts.{to_amount_both_side, last_id}
use dlmm_sdk.Weights.Amounts.Laws.{DecimalLaws}
use dlmm_sdk.Weights.Strategy.{
  StrategyType, spot, curve, bid_ask, Deposit, bid_part, ask_part, amounts_in_range,
  amounts_both_side, to_amounts_both_side_by_strategy,
}
use dlmm_sdk.Weights.Strategy.Covers.{Covers, Covers-both_parts}
use dlmm_sdk.Weights.Strategy.Positive.{
  IsWeighed, AreWeights, IsShape, spot-IsShape, ascending-IsShape, descending-IsShape,
}
use dlmm_sdk.Weights.Strategy.Parts.{
  IsPlaced, ArePrices, AreSmall, range_ne_nil, bid_part-Covers, ask_part-Covers,
  under_active-Covers, over_active-Covers,
}

module _ (d : Decimals) (laws : DecimalLaws d) (calculate_fee : TransferFee → ℕ → ℕ) (p : Deposit)
    (small : AreSmall p) (prices : ArePrices d p) where
  in_range-Covers :
      (bid ask : ℤ → ℤ → List BinWeight)
      → IsShape bid
      → IsShape ask
      → p.min_bin_id ≤ℤ p.active_id
      → p.active_id ≤ℤ p.max_bin_id
      → Covers (IsPlaced p) p.min_bin_id p.max_bin_id (amounts_in_range d calculate_fee p bid ask)
  unfolding amounts_in_range
  in_range-Covers bid ask bid_shape ask_shape low high = elim (Bool-cases (p.amount_y == 0)) [
    | inl no_y ↦
        rw (no_y, le→leb _ _ high)
          (Covers-both_parts (IsPlaced p) p.min_bin_id (p.active_id -ℤ pos 1) p.active_id
            p.max_bin_id _ _ low (omega (int_laws, high)) (omega int_laws)
            (under_active-Covers d laws calculate_fee p small bid bid_shape p.min_bin_id
              (omega arith) high)
            (ask_part-Covers d laws calculate_fee p small prices p.active_id p.max_bin_id _ high
              (omega arith) low (omega arith) (inr (==→eq p.amount_y 0 no_y)) (ask_shape _ _ high)))
    | inr some_y ↦
        let some_amount : p.amount_y ≢ 0 = λ e. ground arith in
        rw (some_y, le→leb _ _ low)
          (Covers-both_parts (IsPlaced p) p.min_bin_id p.active_id (p.active_id +ℤ pos 1)
            p.max_bin_id _ _ (omega (int_laws, low)) (omega (int_laws, high)) refl
            (bid_part-Covers d laws calculate_fee p small p.min_bin_id p.active_id _ low
              (omega arith) (omega arith) high (inr some_amount) (bid_shape _ _ low))
            (over_active-Covers d laws calculate_fee p small prices ask ask_shape low))
  ]

  last_id_between :
      (lo hi i : ℤ) (bins : List BinWeight)
      → lo ≤ℤ i
      → i ≤ℤ hi
      → All (IsWeighed lo hi) bins
      → (lo ≤ℤ last_id i bins) × (last_id i bins ≤ℤ hi)
  unfolding last_id
  last_id_between lo hi i [] above below ws = (above, below)
  last_id_between lo hi i (b ∷ bins) above below ((above', below', positive), ws) =
      last_id_between lo hi b.bin_id bins above' below' ws

  above_active-Covers :
      (weights : List BinWeight)
      → p.min_bin_id ≤ℤ p.max_bin_id
      → p.active_id <ℤ p.min_bin_id
      → AreWeights p.min_bin_id p.max_bin_id weights
      → Covers (IsPlaced p) p.min_bin_id p.max_bin_id (amounts_both_side d calculate_fee p weights)
  unfolding amounts_both_side to_amount_both_side
  above_active-Covers [] h ahead (ids, ws) = absurd (range_ne_nil _ _ h ids)
  above_active-Covers (b ∷ bins) h ahead (ids, ((above, below, positive), ws)) =
      let last = last_id_between p.min_bin_id p.max_bin_id b.bin_id bins above below ws in
      let test : ltb_ℤ (last_id b.bin_id bins) p.active_id ≡ false =
        le→ltb-false _ _ (omega (arith, last.0, ahead)) in
      let test' : ltb_ℤ p.active_id b.bin_id ≡ true = lt→ltb _ _ (omega (arith, above, ahead)) in
      let covers =
        ask_part-Covers d laws calculate_fee p small prices p.min_bin_id p.max_bin_id (b ∷ bins) h
          (omega (arith, ahead)) (omega arith) (omega arith) (inl ahead)
          (ids, ((above, below, positive), ws)) in
      rw (test, test') (unfold ask_part in covers)

  below_active-Covers :
      (weights : List BinWeight)
      → p.min_bin_id ≤ℤ p.max_bin_id
      → p.max_bin_id <ℤ p.active_id
      → AreWeights p.min_bin_id p.max_bin_id weights
      → Covers (IsPlaced p) p.min_bin_id p.max_bin_id (amounts_both_side d calculate_fee p weights)
  unfolding amounts_both_side to_amount_both_side
  below_active-Covers [] h behind (ids, ws) = absurd (range_ne_nil _ _ h ids)
  below_active-Covers (b ∷ bins) h behind (ids, ((above, below, positive), ws)) =
      let last = last_id_between p.min_bin_id p.max_bin_id b.bin_id bins above below ws in
      let test : ltb_ℤ (last_id b.bin_id bins) p.active_id ≡ true =
        lt→ltb _ _ (omega (arith, last.1, behind)) in
      let covers =
        bid_part-Covers d laws calculate_fee p small p.min_bin_id p.max_bin_id (b ∷ bins) h
          (omega (arith, behind)) (omega arith) (omega arith) (inl behind)
          (ids, ((above, below, positive), ws)) in
      rw test (unfold bid_part in covers)

  range_Covers :
      (strategy : StrategyType)
      → p.min_bin_id ≤ℤ p.active_id
      → p.active_id ≤ℤ p.max_bin_id
      → Covers
          (IsPlaced p)
          p.min_bin_id
          p.max_bin_id
          (to_amounts_both_side_by_strategy d calculate_fee p strategy)
  unfolding to_amounts_both_side_by_strategy
  range_Covers spot low high =
      rw (le→ltb-false _ _ low, le→ltb-false _ _ high)
        (in_range-Covers _ _ spot-IsShape spot-IsShape low high)
  range_Covers curve low high =
      rw (le→ltb-false _ _ low, le→ltb-false _ _ high)
        (in_range-Covers _ _ ascending-IsShape descending-IsShape low high)
  range_Covers bid_ask low high =
      rw (le→ltb-false _ _ low, le→ltb-false _ _ high)
        (in_range-Covers _ _ descending-IsShape ascending-IsShape low high)

  ahead_Covers :
      (strategy : StrategyType)
      → p.min_bin_id ≤ℤ p.max_bin_id
      → p.active_id <ℤ p.min_bin_id
      → Covers
          (IsPlaced p)
          p.min_bin_id
          p.max_bin_id
          (to_amounts_both_side_by_strategy d calculate_fee p strategy)
  unfolding to_amounts_both_side_by_strategy
  ahead_Covers spot h ahead =
      rw (lt→ltb _ _ ahead) (above_active-Covers _ h ahead (spot-IsShape _ _ h))
  ahead_Covers curve h ahead =
      rw (lt→ltb _ _ ahead) (above_active-Covers _ h ahead (descending-IsShape _ _ h))
  ahead_Covers bid_ask h ahead =
      rw (lt→ltb _ _ ahead) (above_active-Covers _ h ahead (ascending-IsShape _ _ h))

  behind_Covers :
      (strategy : StrategyType)
      → p.min_bin_id ≤ℤ p.max_bin_id
      → p.max_bin_id <ℤ p.active_id
      → Covers
          (IsPlaced p)
          p.min_bin_id
          p.max_bin_id
          (to_amounts_both_side_by_strategy d calculate_fee p strategy)
  unfolding to_amounts_both_side_by_strategy
  behind_Covers spot h behind =
      let low : ltb_ℤ p.active_id p.min_bin_id ≡ false =
        le→ltb-false _ _ (omega (arith, h, behind)) in
      rw (low, lt→ltb _ _ behind) (below_active-Covers _ h behind (spot-IsShape _ _ h))
  behind_Covers curve h behind =
      let low : ltb_ℤ p.active_id p.min_bin_id ≡ false =
        le→ltb-false _ _ (omega (arith, h, behind)) in
      rw (low, lt→ltb _ _ behind) (below_active-Covers _ h behind (ascending-IsShape _ _ h))
  behind_Covers bid_ask h behind =
      let low : ltb_ℤ p.active_id p.min_bin_id ≡ false =
        le→ltb-false _ _ (omega (arith, h, behind)) in
      rw (low, lt→ltb _ _ behind) (below_active-Covers _ h behind (descending-IsShape _ _ h))

-- For decimal numbers with the laws of `DecimalLaws`, amounts and a number of bins below 10^20, and
-- positive weights at the prices of the range's bins, `toAmountsBothSideByStrategy` does not throw, for each strategy, wherever
-- the active bin lies, for a range that is not empty: it returns amounts for exactly the bins of the
-- range, in order, with X in no bin below the active one and Y in none above. Where the range has the
-- active bin, that bin gets X alone if the deposit has no Y, and else Y alone.
pub to_amounts_both_side_by_strategy-Covers :
    (d : Decimals) (calculate_fee : TransferFee → ℕ → ℕ) (p : Deposit) (strategy : StrategyType)
    → DecimalLaws d
    → AreSmall p
    → ArePrices d p
    → p.min_bin_id ≤ℤ p.max_bin_id
    → Covers
        (IsPlaced p)
        p.min_bin_id
        p.max_bin_id
        (to_amounts_both_side_by_strategy d calculate_fee p strategy)
to_amounts_both_side_by_strategy-Covers d calculate_fee p strategy laws small prices h =
    elim (Bool-cases (ltb_ℤ p.active_id p.min_bin_id)) [
      | inl ahead ↦
          ahead_Covers d laws calculate_fee p small prices strategy h
            (ltb_ℤ→lt p.active_id p.min_bin_id ahead)
      | inr low ↦ elim (Bool-cases (ltb_ℤ p.max_bin_id p.active_id)) [
        | inl behind ↦
            behind_Covers d laws calculate_fee p small prices strategy h
              (ltb_ℤ→lt p.max_bin_id p.active_id behind)
        | inr high ↦
            range_Covers d laws calculate_fee p small prices strategy (ltb-false→le _ _ low)
              (ltb-false→le _ _ high)
      ]
    ]
