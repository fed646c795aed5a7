-- ===== src/Weights/Strategy/Parts.antt =====
-- strategy.ts, `toAmountsBothSideByStrategy`: the loops over the weights of one side.
use dlmm_sdk.Prelude.{
  ℕ, suc, ◌+◌, ◌-◌, ◌^◌, ◌<◌, ◌≡◌, ◌≢◌, ◌⊎◌, refl, ap, inl, inr, arith, true, false, List, [], ◌∷◌,
  ok, Bool-cases, le→ltb-false, ltb-false→le, if◌then◌else◌,
}
use dlmm_sdk.Prelude.Int.{
  ℤ, pos, pos_part, neg_part, ◌+ℤ◌, ◌-ℤ◌, ◌<ℤ◌, ◌≤ℤ◌, ltb_ℤ, ltb_ℤ→lt, int_laws, parts_of_eq,
}
use dlmm_sdk.Token.{TransferFee}
use dlmm_sdk.Positions.{ids_from_to, indexes_from}
use dlmm_sdk.Rebalance.{bin_range_to_bin_id_array}
use dlmm_sdk.Weights.{BinWeight}
use dlmm_sdk.Weights.Decimals.{Decimals, weight_per_price}
use dlmm_sdk.Weights.Amounts.{BinAmounts}
use dlmm_sdk.Weights.Amounts.Sides.{
  IsYAt, IsXAt, CountsBid, CountsAsk, bid_side-IsYAt, ask_side-IsXAt,
}
use dlmm_sdk.Weights.Amounts.Laws.{DecimalLaws, IsShort}
use dlmm_sdk.Weights.Strategy.{Deposit, bid_part, ask_part}
use dlmm_sdk.Weights.Strategy.Covers.{Covers, Gives-Covers, All-map, Covers-empty}
use dlmm_sdk.Weights.Strategy.Positive.{IsWeighed, AreWeights, IsShape}

-- X stands in no bin below the active one and Y in none above; the active bin itself has X alone
-- where the deposit has no Y, and else Y alone.
abbrev pub IsPlaced : Deposit → BinAmounts → Type 0
IsPlaced p a =
    (a.bin_id <ℤ p.active_id → a.amount_x ≡ pos 0)
    × (p.active_id <ℤ a.bin_id → a.amount_y ≡ pos 0)
    × (a.bin_id ≡ p.active_id
        → (p.amount_y ≡ 0 → a.amount_y ≡ pos 0) × (p.amount_y ≢ 0 → a.amount_x ≡ pos 0))

pub range_ne_nil : (lo hi : ℤ) → lo ≤ℤ hi → [] ≢ bin_range_to_bin_id_array lo hi
unfolding bin_range_to_bin_id_array indexes_from
range_ne_nil lo hi h e =
    let k = pos_part hi + neg_part lo - (pos_part lo + neg_part hi) in
    let count : ids_from_to lo hi ≡ suc k = omega (arith, h) in
    cc (e, ap (λ (n : ℕ). indexes_from n lo) count)

-- The weights of the bins at their prices are positive.
abbrev pub ArePrices : Decimals → Deposit → Type 0
ArePrices d p =
    (i : ℤ) (n : ℕ)
    → p.min_bin_id ≤ℤ i
    → i ≤ℤ p.max_bin_id
    → d.is_positive (weight_per_price d p.bin_step (record { bin_id = i; weight = pos (suc n) }))
      ≡ true

-- The amounts of a deposit are below 10^20, and so is the number of its bins.
abbrev pub AreSmall : Deposit → Type 0
AreSmall p =
    (p.amount_x < 10 ^ 20)
    × (p.amount_y < 10 ^ 20)
    × (ids_from_to p.min_bin_id p.max_bin_id < 10 ^ 20)

module _ (d : Decimals) (laws : DecimalLaws d) (calculate_fee : TransferFee → ℕ → ℕ) (p : Deposit)
    (small : AreSmall p) where
  IsWeighed-CountsBid :
      (lo hi : ℤ)
      → hi ≤ℤ p.active_id
      → p.min_bin_id ≤ℤ lo
      → hi ≤ℤ p.max_bin_id
      → (b : BinWeight) → IsWeighed lo hi b
      → CountsBid d calculate_fee p.active_id b
  IsWeighed-CountsBid lo hi end inside within b (above, below, (n, e, few)) =
      let test : ltb_ℤ p.active_id b.bin_id ≡ false =
        le→ltb-false _ _ (omega (arith, below, end)) in
      (
        rw test refl,
        rw e (laws.from_int_pos n),
        rw e (laws.from_int_short (suc n) (omega (arith, few, inside, within, small.2))),
      )

  weight_per_price-IsShort :
      (b : BinWeight)
      → d.is_positive (weight_per_price d p.bin_step b) ≡ true
      → IsShort d (weight_per_price d p.bin_step b)
  unfolding weight_per_price
  weight_per_price-IsShort b h = laws.div_short _ _ h

  IsWeighed-CountsAsk :
      ArePrices d p
      → (lo hi : ℤ) → p.active_id ≤ℤ lo
      → p.min_bin_id ≤ℤ lo
      → hi ≤ℤ p.max_bin_id
      → (b : BinWeight) → IsWeighed lo hi b
      → CountsAsk d calculate_fee p.active_id p.bin_step b
  IsWeighed-CountsAsk prices lo hi start inside end b (above, below, (n, e, few)) =
      let test : ltb_ℤ b.bin_id p.active_id ≡ false =
        le→ltb-false _ _ (omega (arith, above, start)) in
      let price : d.is_positive (weight_per_price d p.bin_step b) ≡ true =
        rw e (prices b.bin_id n (omega (arith, above, inside)) (omega (arith, below, end))) in
      (rw test refl, price, weight_per_price-IsShort b price)

  bid-IsPlaced :
      (lo hi : ℤ)
      → hi ≤ℤ p.active_id
      → (hi <ℤ p.active_id) ⊎ (p.amount_y ≢ 0)
      → (b : BinWeight) (a : BinAmounts) → IsWeighed lo hi b
      → IsYAt b a
      → IsPlaced p a
  bid-IsPlaced lo hi end side b a (above, below, positive) (id, x) = (
    λ _. x,
    λ beyond. absurd (omega (arith, beyond, below, end, parts_of_eq _ _ id)),
    λ here. (
      λ no_y. elim side [
        | inl ahead ↦ absurd (omega (arith, below, ahead, parts_of_eq _ _ here, parts_of_eq _ _ id))
        | inr some_y ↦ absurd (some_y no_y)
      ],
      λ _. x,
    ),
  )

  ask-IsPlaced :
      (lo hi : ℤ)
      → p.active_id ≤ℤ lo
      → (p.active_id <ℤ lo) ⊎ (p.amount_y ≡ 0)
      → (b : BinWeight) (a : BinAmounts) → IsWeighed lo hi b
      → IsXAt b a
      → IsPlaced p a
  ask-IsPlaced lo hi start side b a (above, below, positive) (id, y) = (
    λ before. absurd (omega (arith, before, above, start, parts_of_eq _ _ id)),
    λ _. y,
    λ here. (
      λ _. y,
      λ some_y. elim side [
        | inl ahead ↦ absurd (omega (arith, above, ahead, parts_of_eq _ _ here, parts_of_eq _ _ id))
        | inr no_y ↦ absurd (some_y no_y)
      ],
    ),
  )

  pub bid_part-Covers :
      (lo hi : ℤ) (bins : List BinWeight)
      → lo ≤ℤ hi
      → hi ≤ℤ p.active_id
      → p.min_bin_id ≤ℤ lo
      → hi ≤ℤ p.max_bin_id
      → (hi <ℤ p.active_id) ⊎ (p.amount_y ≢ 0)
      → AreWeights lo hi bins
      → Covers (IsPlaced p) lo hi (bid_part d calculate_fee p bins)
  unfolding bid_part
  bid_part-Covers lo hi [] h end inside within side (ids, ws) = absurd (range_ne_nil lo hi h ids)
  bid_part-Covers lo hi (b ∷ bins) h end inside within side (ids, ws) =
      Gives-Covers IsYAt (IsWeighed lo hi) (IsPlaced p) (λ c a r. r.0) (bid-IsPlaced lo hi end side)
        lo hi (b ∷ bins) _ ids ws
        (bid_side-IsYAt d calculate_fee p.active_id laws p.amount_y b bins p.mint_y small.1
          (All-map (IsWeighed-CountsBid lo hi end inside within) (b ∷ bins) ws))

  pub ask_part-Covers :
      ArePrices d p
      → (lo hi : ℤ) (bins : List BinWeight) → lo ≤ℤ hi
      → p.active_id ≤ℤ lo
      → p.min_bin_id ≤ℤ lo
      → hi ≤ℤ p.max_bin_id
      → (p.active_id <ℤ lo) ⊎ (p.amount_y ≡ 0)
      → AreWeights lo hi bins
      → Covers (IsPlaced p) lo hi (ask_part d calculate_fee p bins)
  unfolding ask_part
  ask_part-Covers prices lo hi [] h start inside end side (ids, ws) =
      absurd (range_ne_nil lo hi h ids)
  ask_part-Covers prices lo hi (b ∷ bins) h start inside end side (ids, ws) =
      Gives-Covers IsXAt (IsWeighed lo hi) (IsPlaced p) (λ c a r. r.0)
        (ask-IsPlaced lo hi start side) lo hi (b ∷ bins) _ ids ws
        (ask_side-IsXAt d calculate_fee p.active_id laws p.bin_step p.amount_x b bins p.mint_x
          small.0 (All-map (IsWeighed-CountsAsk prices lo hi start inside end) (b ∷ bins) ws))

  pub under_active-Covers :
      (bid : ℤ → ℤ → List BinWeight)
      → IsShape bid
      → (lo : ℤ) → p.min_bin_id ≤ℤ lo
      → p.active_id ≤ℤ p.max_bin_id
      → Covers (IsPlaced p) lo (p.active_id -ℤ pos 1) (
          if ltb_ℤ lo p.active_id
          then bid_part d calculate_fee p (bid lo (p.active_id -ℤ pos 1))
          else ok [])
  under_active-Covers bid shape lo inside high = elim (Bool-cases (ltb_ℤ lo p.active_id)) [
    | inl h ↦
        let below = ltb_ℤ→lt lo p.active_id h in
        let fits : lo ≤ℤ p.active_id -ℤ pos 1 = omega (int_laws, below) in
        rw h (
          bid_part-Covers lo (p.active_id -ℤ pos 1) (bid lo (p.active_id -ℤ pos 1)) fits
            (omega int_laws) inside (omega (int_laws, high)) (inl (omega int_laws))
            (shape _ _ fits))
    | inr h ↦
        rw h (
          Covers-empty (IsPlaced p) lo (p.active_id -ℤ pos 1)
            (omega (int_laws, ltb-false→le _ _ h)))
  ]

  pub over_active-Covers :
      ArePrices d p
      → (ask : ℤ → ℤ → List BinWeight) → IsShape ask
      → p.min_bin_id ≤ℤ p.active_id
      → Covers (IsPlaced p) (p.active_id +ℤ pos 1) p.max_bin_id (
          if ltb_ℤ p.active_id p.max_bin_id
          then ask_part d calculate_fee p (ask (p.active_id +ℤ pos 1) p.max_bin_id)
          else ok [])
  over_active-Covers prices ask shape low = elim (Bool-cases (ltb_ℤ p.active_id p.max_bin_id)) [
    | inl h ↦
        let above = ltb_ℤ→lt p.active_id p.max_bin_id h in
        let fits : p.active_id +ℤ pos 1 ≤ℤ p.max_bin_id = omega (int_laws, above) in
        rw h (
          ask_part-Covers prices (p.active_id +ℤ pos 1) p.max_bin_id _ fits (omega int_laws)
            (omega (int_laws, low)) (omega arith) (inl (omega int_laws)) (shape _ _ fits))
    | inr h ↦ rw h (
        Covers-empty (IsPlaced p) (p.active_id +ℤ pos 1) p.max_bin_id
          (omega (int_laws, ltb-false→le _ _ h)))
  ]
