-- ===== src/Weights/Strategy/Positive.antt =====
-- strategy.ts: the weights of a range are positive, in each order.
use dlmm_sdk.Prelude.{ℕ, zero, suc, ◌+◌, ◌-◌, ◌<◌, ◌≡◌, refl, arith, List, All}
use dlmm_sdk.Prelude.Int.{ℤ, pos, pos_part, neg_part, ◌+ℤ◌, ◌≤ℤ◌, int_laws}
use dlmm_sdk.Positions.{ids_from_to}
use dlmm_sdk.Rebalance.{bin_range_to_bin_id_array}
use dlmm_sdk.Weights.{
  BinWeight, weights_from, to_weight_spot_balanced, to_weight_ascending_order,
  to_weight_descending_order,
}
use dlmm_sdk.Weights.Shapes.{weight_ids, weights_from-ids}

-- A bin of a range, with a positive weight that is at most the number of bins.
abbrev pub IsWeighed : (lo hi : ℤ) → BinWeight → Type 0
IsWeighed lo hi b =
    (lo ≤ℤ b.bin_id)
    × (b.bin_id ≤ℤ hi)
    × ((n : ℕ) × (b.weight ≡ pos (suc n)) × (n < ids_from_to lo hi))

-- Weights for each bin of a range, all of them positive and at most the number of bins.
abbrev pub AreWeights : (lo hi : ℤ) → List BinWeight → Type 0
AreWeights lo hi weights =
    (weight_ids weights ≡ bin_range_to_bin_id_array lo hi) × All (IsWeighed lo hi) weights

weights_from-IsWeighed :
    (weight : ℤ → ℤ) (lo hi : ℤ)
    → ((i : ℤ) → lo ≤ℤ i → i ≤ℤ hi → (n : ℕ) × (weight i ≡ pos (suc n)) × (n < ids_from_to lo hi))
    → (k : ℕ) (i : ℤ) → lo ≤ℤ i
    → i +ℤ pos k ≤ℤ hi +ℤ pos 1
    → All (IsWeighed lo hi) (weights_from weight k i)
unfolding weights_from
weights_from-IsWeighed weight lo hi positive zero i above below = tt
weights_from-IsWeighed weight lo hi positive (suc k) i above below =
    let inside : i ≤ℤ hi = omega (int_laws, below) in
    (
      (above, inside, positive i above inside),
      weights_from-IsWeighed weight lo hi positive k (i +ℤ pos 1) (omega (int_laws, above))
          (omega (int_laws, below)),
    )

-- A shape of weights, over every range.
abbrev pub IsShape : (ℤ → ℤ → List BinWeight) → Type 0
IsShape shape = (lo hi : ℤ) → lo ≤ℤ hi → AreWeights lo hi (shape lo hi)

weights-AreWeights :
    (weight : ℤ → ℤ) (lo hi : ℤ)
    → lo ≤ℤ hi
    → ((i : ℤ) → lo ≤ℤ i → i ≤ℤ hi → (n : ℕ) × (weight i ≡ pos (suc n)) × (n < ids_from_to lo hi))
    → AreWeights lo hi (weights_from weight (ids_from_to lo hi) lo)
unfolding bin_range_to_bin_id_array
weights-AreWeights weight lo hi h positive = (
  weights_from-ids weight (ids_from_to lo hi) lo,
  weights_from-IsWeighed weight lo hi positive (ids_from_to lo hi) lo (omega arith)
      (omega (int_laws, h)),
)

pub spot-IsShape : IsShape to_weight_spot_balanced
unfolding to_weight_spot_balanced
spot-IsShape lo hi h = weights-AreWeights _ lo hi h (λ i above below. (0, refl, omega (arith, h)))

pub ascending-IsShape : IsShape to_weight_ascending_order
unfolding to_weight_ascending_order
ascending-IsShape lo hi h = weights-AreWeights _ lo hi h (λ i above below. (
  pos_part i + neg_part lo - (pos_part lo + neg_part i),
  omega (int_laws, above),
  omega (arith, h, above, below),
))

pub descending-IsShape : IsShape to_weight_descending_order
unfolding to_weight_descending_order
descending-IsShape lo hi h = weights-AreWeights _ lo hi h (λ i above below. (
  pos_part hi + neg_part i - (pos_part i + neg_part hi),
  omega (int_laws, below),
  omega (arith, h, above, below),
))
