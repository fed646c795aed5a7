-- ===== src/Rebalance/Liquidity/Spot/Within.antt =====
-- spot.ts: the amounts of the bins of one side, for a base, against the amount of the deposit.
use native.Mathlib.Nat.{div-mul-le_self}
use dlmm_sdk.Prelude.{ℕ, zero, suc, ◌*◌, ◌/◌, ◌^◌, ◌≤◌, ◌≡◌, refl, ◌∙◌, arith, List, [], ◌++◌, All}
use dlmm_sdk.Prelude.Int.{ℤ, pos, ◌+ℤ◌, ◌-ℤ◌, ◌*ℤ◌, ◌≤ℤ◌, int_laws, parts_of_eq, *ℤ_parts}
use dlmm_sdk.Constants.{scale_offset}
use dlmm_sdk.Positions.{ids_from_to}
use dlmm_sdk.Rebalance.Amounts.{AmountIntoBin, bid_loop, get_amount_in_bins_bid_side}
use dlmm_sdk.Rebalance.Amounts.Asks.{ask_amounts, asks}
use dlmm_sdk.Rebalance.Liquidity.{reduce_amounts}
use dlmm_sdk.Rebalance.Liquidity.Sums.{reduce-cons, reduce-append, reduce_zeros}
use dlmm_sdk.Rebalance.Liquidity.Spot.Shares.{range_shares, asks-range_shares}

abbrev pub sum_x : List AmountIntoBin → ℤ
sum_x bins = reduce_amounts (λ b. b.amount_x) (pos 0) bins

abbrev pub sum_y : List AmountIntoBin → ℤ
sum_y bins = reduce_amounts (λ b. b.amount_y) (pos 0) bins

-- The amounts of the bins add up to at most those of the deposit.
abbrev pub IsWithin : (a b : ℕ) → List AmountIntoBin → Type 0
IsWithin a b bins = (sum_x bins ≤ℤ pos a) × (sum_y bins ≤ℤ pos b)

bid_loop-no_x :
    (n : ℕ) (active delta y b : ℤ) → All (λ e. e.amount_x ≡ pos 0) (bid_loop n active delta y b)
unfolding bid_loop
bid_loop-no_x zero active delta y b = tt
bid_loop-no_x (suc n) active delta y b = (refl, bid_loop-no_x n active delta y (b +ℤ pos 1))

ask_amounts-no_y :
    (n base : ℕ) (active delta x b : ℤ) (price : ℕ) (written : List AmountIntoBin)
    → All (λ e. e.amount_y ≡ pos 0) written
    → All (λ e. e.amount_y ≡ pos 0) (ask_amounts n base active delta x b price written)
unfolding ask_amounts
ask_amounts-no_y zero base active delta x b price written h = h
ask_amounts-no_y (suc n) base active delta x b price written h =
    ask_amounts-no_y n base active delta x (b -ℤ pos 1) (price * base / 2 ^ scale_offset) _
      (refl, h)

bid_loop-sum_y :
    (n : ℕ) (active : ℤ) (y : ℕ) (b : ℤ) → sum_y (bid_loop n active (pos 0) (pos y) b) ≡ pos (n * y)
unfolding bid_loop
bid_loop-sum_y zero active y b = unfold reduce_amounts in (ground arith)
bid_loop-sum_y (suc n) active y b =
    let e : pos y +ℤ pos 0 *ℤ (active -ℤ b) ≡ pos y =
      omega (int_laws, *ℤ_parts (pos 0) (active -ℤ b)) in
    reduce-cons (λ e'. e'.amount_y) _ (bid_loop n active (pos 0) (pos y) (b +ℤ pos 1))
    ∙ omega (int_laws, parts_of_eq _ _ e, parts_of_eq _ _ (bid_loop-sum_y n active y (b +ℤ pos 1)))

-- The bins of the bid side for a spot deposit.
pub bid-IsWithin :
    (b : ℕ) (lo hi active : ℤ)
    → lo ≤ℤ hi
    → IsWithin 0 b (get_amount_in_bins_bid_side active lo hi (pos 0) (pos (b / ids_from_to lo hi)))
unfolding get_amount_in_bins_bid_side
bid-IsWithin b lo hi active h =
    let n = ids_from_to lo hi in
    let y = b / n in
    let count : ids_from_to (active +ℤ lo) (active +ℤ hi) ≡ n = omega int_laws in
    let none_x =
      reduce_zeros (λ e. e.amount_x) _ (bid_loop-no_x n active (pos 0) (pos y) (active +ℤ lo)) in
    rw count (
      omega (arith, parts_of_eq _ _ none_x),
      omega
          (arith, parts_of_eq _ _ (bid_loop-sum_y n active y (active +ℤ lo)), div-mul-le_self b n),
    )

pub ask-IsWithin :
    (a x : ℕ) (lo hi : ℤ) (step : ℕ) (active : ℤ)
    → range_shares lo hi step active x ≤ a
    → IsWithin a 0 (asks active step lo hi (pos 0) (pos x))
ask-IsWithin a x lo hi step active h =
    let bins = asks active step lo hi (pos 0) (pos x) in
    let shares : sum_x bins ≡ pos (range_shares lo hi step active x) =
      asks-range_shares lo hi step active x in
    let none_y =
      reduce_zeros (λ e. e.amount_y) bins
        (unfold asks in
          ask_amounts-no_y (ids_from_to (active +ℤ lo) (active +ℤ hi)) _ active (pos 0) (pos x)
            (active +ℤ hi) _ [] tt) in
    (omega (arith, h, parts_of_eq _ _ shares), omega (arith, parts_of_eq _ _ none_y))

pub append-IsWithin :
    (a b : ℕ) (xs ys : List AmountIntoBin)
    → IsWithin 0 b xs
    → IsWithin a 0 ys
    → IsWithin a b (xs ++ ys)
append-IsWithin a b xs ys (x, y) (x', y') = (
  omega (int_laws, x, x', parts_of_eq _ _ (reduce-append (λ e. e.amount_x) xs ys)),
  omega (int_laws, y, y', parts_of_eq _ _ (reduce-append (λ e. e.amount_y) xs ys)),
)

pub weaken :
    (a b a' b' : ℕ) (bins : List AmountIntoBin)
    → a ≤ a'
    → b ≤ b'
    → IsWithin a b bins
    → IsWithin a' b' bins
weaken a b a' b' bins h k (x, y) = (omega (arith, h, x), omega (arith, k, y))
