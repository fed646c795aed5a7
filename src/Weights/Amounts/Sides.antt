-- ===== src/Weights/Amounts/Sides.antt =====
-- weightToAmounts.ts: the bins of the amounts, and the side of the active bin that each token goes to.
use dlmm_sdk.Prelude.{
  ℕ, ◌^◌, ◌<◌, ◌≤◌, ◌≡◌, refl, arith, true, not, List, [], ◌∷◌, map, All, Option, none, some,
  Result, ok, err, ◌>>=◌, inl, inr, Bool-cases,
}
use dlmm_sdk.Prelude.Int.{ℤ, pos, ltb_ℤ}
use dlmm_sdk.Token.{TransferFee, calculate_transfer_fee_excluded_amount}
use dlmm_sdk.Weights.{BinWeight}
use dlmm_sdk.Weights.Decimals.{Decimals, weight_per_price, read_bn}
use dlmm_sdk.Weights.Amounts.{
  BinAmount, BinAmounts, with_x, with_y, map_ok, map_result, bid_amount, to_amount_bid_side,
  ask_amount, to_amount_ask_side,
}
use dlmm_sdk.Weights.Amounts.Laws.{DecimalLaws, IsShort, IsPartOf, sum_where_from_zero}

abbrev pub IsYAt : BinWeight → BinAmounts → Type 0
IsYAt b amounts = (amounts.bin_id ≡ b.bin_id) × (amounts.amount_x ≡ pos 0)

abbrev pub IsXAt : BinWeight → BinAmounts → Type 0
IsXAt b amounts = (amounts.bin_id ≡ b.bin_id) × (amounts.amount_y ≡ pos 0)

-- A relation between the bins of a distribution and their amounts, one by one.
abbrev pub Zip : (BinWeight → BinAmounts → Type 0) → List BinWeight → List BinAmounts → Type 0
Zip R [] [] = Unit
Zip R [] (a ∷ amounts) = ⊥
Zip R (b ∷ bins) [] = ⊥
Zip R (b ∷ bins) (a ∷ amounts) = R b a × Zip R bins amounts

-- A result that does not throw, with amounts so related.
abbrev pub Gives :
    (BinWeight → BinAmounts → Type 0) → List BinWeight → Result (List BinAmounts) → Type 0
Gives R bins (err e) = ⊥
Gives R bins (ok amounts) = Zip R bins amounts

abbrev pub amounts_ids : List BinAmounts → List ℤ
amounts_ids amounts = map (λ b. b.bin_id) amounts

Gives-cons :
    (R : BinWeight → BinAmounts → Type 0) (f : BinAmount → BinAmounts) (b : BinWeight)
    (a : BinAmount) (r : Result (List BinAmount)) (bins : List BinWeight)
    → R b (f a)
    → Gives R bins (map_ok (map f) r)
    → Gives R (b ∷ bins) (map_ok (map f) (r >>= (λ amounts. ok (a ∷ amounts))))
Gives-cons R f b a (err e) bins is g = g
Gives-cons R f b a (ok amounts) bins is g = (is, g)

-- Where the function gives an amount for each bin, so does the map.
map_result-Gives :
    (R : BinWeight → BinAmounts → Type 0) (f : BinAmount → BinAmounts)
    (g : BinWeight → Result BinAmount) (P : BinWeight → Type 0)
    → ((b : BinWeight) → P b → (a : BinAmount) × (g b ≡ ok a) × R b (f a))
    → (bins : List BinWeight) → All P bins
    → Gives R bins (map_ok (map f) (map_result g bins))
map_result-Gives R f g P each [] ps = tt
map_result-Gives R f g P each (b ∷ bins) (p, ps) =
    let (a, run, is) = each b p in
    rw run (Gives-cons R f b a (map_result g bins) bins is (map_result-Gives R f g P each bins ps))

module _ (d : Decimals) (calculate_fee : TransferFee → ℕ → ℕ) (active_id : ℤ) where
  -- The number of a bin of the bid side, or of the ask side, that adds to the total is positive and short.
  abbrev pub CountsBid : BinWeight → Type 0
  CountsBid b =
      (not (ltb_ℤ active_id b.bin_id) ≡ true)
      × (d.is_positive (d.from_int b.weight) ≡ true)
      × IsShort d (d.from_int b.weight)

  abbrev pub CountsAsk : ℕ → BinWeight → Type 0
  CountsAsk bin_step b =
      (not (ltb_ℤ b.bin_id active_id) ≡ true)
      × (d.is_positive (weight_per_price d bin_step b) ≡ true)
      × IsShort d (weight_per_price d bin_step b)

  excluded-le :
      (mint : Option TransferFee) (amount : ℕ)
      → (calculate_transfer_fee_excluded_amount calculate_fee mint amount).amount ≤ amount
  unfolding calculate_transfer_fee_excluded_amount
  excluded-le none amount = omega arith
  excluded-le (some fee) amount = omega arith

  module _ (laws : DecimalLaws d) where
    bid_amount-IsYAt :
        (n : ℕ) (t : d.Decimal)
        → n < 10 ^ 20
        → d.is_positive t ≡ true
        → (b : BinWeight)
        → IsPartOf d laws (λ c. not (ltb_ℤ active_id c.bin_id)) (λ c. d.from_int c.weight) t b
        → (a : BinAmount) × (bid_amount d active_id n t b ≡ ok a) × IsYAt b (with_y a)
    unfolding bid_amount read_bn
    bid_amount-IsYAt n t small positive b (p, part) =
        let (z, read) = laws.reads_share n (d.from_int b.weight) t small p positive part in
        elim (Bool-cases (ltb_ℤ active_id b.bin_id)) [
          | inl beyond ↦
              (record { bin_id = b.bin_id; amount = pos 0 }, rw beyond refl, (refl, refl))
          | inr here ↦
              (record { bin_id = b.bin_id; amount = z }, rw (here, read) refl, (refl, refl))
        ]

    ask_amount-IsXAt :
        (step n : ℕ) (t : d.Decimal)
        → n < 10 ^ 20
        → d.is_positive t ≡ true
        → (b : BinWeight)
        → IsPartOf d laws (λ c. not (ltb_ℤ c.bin_id active_id)) (weight_per_price d step) t b
        → (a : BinAmount) × (ask_amount d active_id step n t b ≡ ok a) × IsXAt b (with_x a)
    unfolding ask_amount read_bn
    ask_amount-IsXAt step n t small positive b (p, part) =
        let (z, read) = laws.reads_quotient n (weight_per_price d step b) t small p positive part in
        elim (Bool-cases (ltb_ℤ b.bin_id active_id)) [
          | inl before ↦
              (record { bin_id = b.bin_id; amount = pos 0 }, rw before refl, (refl, refl))
          | inr here ↦
              (record { bin_id = b.bin_id; amount = z }, rw (here, read) refl, (refl, refl))
        ]

    pub bid_side-IsYAt :
        (amount : ℕ) (b : BinWeight) (bins : List BinWeight) (mint : Option TransferFee)
        → amount < 10 ^ 20
        → All CountsBid (b ∷ bins)
        → Gives IsYAt (b ∷ bins) (
            map_ok
              (map with_y)
              (to_amount_bid_side d calculate_fee active_id amount (b ∷ bins) mint))
    unfolding to_amount_bid_side
    bid_side-IsYAt amount b bins mint small cs =
        let (positive, parts) =
          sum_where_from_zero d laws (λ c. not (ltb_ℤ active_id c.bin_id))
            (λ c. d.from_int c.weight) b bins cs in
        let less = excluded-le mint amount in
        rw positive (
          map_result-Gives IsYAt with_y _ _
            (bid_amount-IsYAt _ _ (omega (arith, less, small)) positive) (b ∷ bins) parts)

    pub ask_side-IsXAt :
        (step amount : ℕ) (b : BinWeight) (bins : List BinWeight) (mint : Option TransferFee)
        → amount < 10 ^ 20
        → All (CountsAsk step) (b ∷ bins)
        → Gives IsXAt (b ∷ bins) (
            map_ok
              (map with_x)
              (to_amount_ask_side d calculate_fee active_id step amount (b ∷ bins) mint))
    unfolding to_amount_ask_side
    ask_side-IsXAt step amount b bins mint small cs =
        let (positive, parts) =
          sum_where_from_zero d laws (λ c. not (ltb_ℤ c.bin_id active_id)) (weight_per_price d step)
            b bins cs in
        let less = excluded-le mint amount in
        rw positive (
          map_result-Gives IsXAt with_x _ _
            (ask_amount-IsXAt step _ _ (omega (arith, less, small)) positive) (b ∷ bins) parts)
