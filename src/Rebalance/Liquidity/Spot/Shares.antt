-- ===== src/Rebalance/Liquidity/Spot/Shares.antt =====
-- spot.ts, the total of X over the ask side for a base, against the sum of the prices.
use native.Mathlib.Nat.{div-add-mod', mul-add, mul-le-mul, le_refl}
use dlmm_sdk.Prelude.{
  ℕ, zero, suc, ◌+◌, ◌*◌, ◌/◌, ◌^◌, ◌≤◌, ◌<◌, ◌≡◌, refl, ap, ◌∙◌, arith, inl, inr, ok, List, [],
  ◌∷◌,
}
use dlmm_sdk.Prelude.Int.{
  ℤ, pos, neg_ℤ, ◌+ℤ◌, ◌-ℤ◌, ◌*ℤ◌, ◌≤ℤ◌, int_laws, parts_of_eq, *ℤ_parts, pos_mul, +ℤ_zero, tdiv,
}
use dlmm_sdk.Constants.{scale_offset}
use dlmm_sdk.Math.{get_q_price_base_factor}
use dlmm_sdk.Math.Power.{get_q_price_from_id}
use dlmm_sdk.Positions.{ids_from_to}
use dlmm_sdk.Rebalance.Amounts.{AmountIntoBin, get_amount_in_bins_ask_side}
use dlmm_sdk.Rebalance.Amounts.Asks.{ask_amounts, asks, ask_side-Writes}
use dlmm_sdk.Rebalance.Liquidity.{reduce_amounts}
use dlmm_sdk.Rebalance.Liquidity.Sums.{reduce-cons}
use dlmm_sdk.Rebalance.Liquidity.Spot.{weight_loop, total_x}

-- The prices of the bins from a last one down, and their shares of a base.
abbrev pub price_sum : (rounds base price : ℕ) → ℕ
price_sum zero base price = 0
price_sum (suc n) base price = price + price_sum n base (price * base / 2 ^ scale_offset)

abbrev pub share_sum : (rounds base price x : ℕ) → ℕ
share_sum zero base price x = 0
share_sum (suc n) base price x =
    x * price / 2 ^ scale_offset + share_sum n base (price * base / 2 ^ scale_offset) x

pub weight_loop-price_sum :
    (n base price total : ℕ) → weight_loop n base price total ≡ total + price_sum n base price
unfolding weight_loop
weight_loop-price_sum zero base price total = omega arith
weight_loop-price_sum (suc n) base price total =
    omega (arith, weight_loop-price_sum n base (price * base / 2 ^ scale_offset) (total + price))

pub share_sum-le :
    (n base price x : ℕ) → share_sum n base price x * 2 ^ 64 ≤ x * price_sum n base price
share_sum-le zero base price x = omega arith
share_sum-le (suc n) base price x =
    let next = price * base / 2 ^ scale_offset in
    omega (
      arith,
      share_sum-le n base next x,
      div-add-mod' (x * price) (2 ^ 64),
      mul-add x price (price_sum n base next),
    )

-- A base of the whole amount, in Q64.64 units, gives a share of at least the amount at a price.
pub share_sum-reaches :
    (n base price a x : ℕ) → 0 < price → a * 2 ^ 64 ≤ x → a ≤ share_sum (suc n) base price x
share_sum-reaches n base price a x h le =
    let once : x * 1 ≤ x * price = mul-le-mul (le_refl x) h in omega (arith, le, once)

-- The amount of a bin at a delta of zero.
flat_amount :
    (x price : ℕ) (d : ℤ)
    → tdiv ((pos x +ℤ pos 0 *ℤ d) *ℤ pos price) (2 ^ scale_offset)
      ≡ pos (x * price / 2 ^ scale_offset)
unfolding tdiv
flat_amount x price d =
    let e : pos x +ℤ pos 0 *ℤ d ≡ pos x = omega (int_laws, *ℤ_parts (pos 0) d) in
    rw (e, pos_mul x price) refl

reduce-ask_amounts :
    (n base : ℕ) (active b : ℤ) (x price : ℕ) (written : List AmountIntoBin)
    → reduce_amounts
        (λ e. e.amount_x)
        (pos 0)
        (ask_amounts n base active (pos 0) (pos x) b price written)
      ≡ pos (share_sum n base price x) +ℤ reduce_amounts (λ e. e.amount_x) (pos 0) written
unfolding ask_amounts
reduce-ask_amounts zero base active b x price written = omega int_laws
reduce-ask_amounts (suc n) base active b x price written =
    let next = price * base / 2 ^ scale_offset in
    let entry : AmountIntoBin = record {
      bin_id = b;
      amount_x = tdiv ((pos x +ℤ pos 0 *ℤ (b -ℤ active)) *ℤ pos price) (2 ^ scale_offset);
      amount_y = pos 0;
    } in
    let total = reduce_amounts (λ e. e.amount_x) (pos 0) written in
    let head : reduce_amounts (λ e. e.amount_x) (pos 0) (entry ∷ written)
        ≡ pos (x * price / 2 ^ scale_offset) +ℤ total =
      reduce-cons (λ e. e.amount_x) entry written
      ∙ ap (λ (z : ℤ). z +ℤ total) (flat_amount x price (b -ℤ active)) in
    reduce-ask_amounts n base active (b -ℤ pos 1) x next (entry ∷ written)
    ∙ omega (int_laws, parts_of_eq _ _ head)

-- The price of the last bin of a range.
abbrev pub last_price : (max_delta_id : ℤ) → (bin_step : ℕ) → (active_id : ℤ) → ℕ
last_price max_delta_id bin_step active_id =
    get_q_price_from_id (neg_ℤ (active_id +ℤ max_delta_id)) bin_step

abbrev pub range_shares : (min_delta_id max_delta_id : ℤ) → (bin_step : ℕ) → (active_id : ℤ) → ℕ → ℕ
range_shares lo hi step active x =
    share_sum (ids_from_to (active +ℤ lo) (active +ℤ hi)) (get_q_price_base_factor step)
      (last_price hi step active) x

-- A base that is not negative, at a delta of zero, passes the assertions.
pub flat_asks :
    (active : ℤ) (step : ℕ) (lo hi : ℤ) (x : ℕ)
    → lo ≤ℤ hi
    → get_amount_in_bins_ask_side active step lo hi (pos 0) (pos x)
      ≡ ok (asks active step lo hi (pos 0) (pos x))
flat_asks active step lo hi x h =
    elim (ask_side-Writes active step lo hi (pos 0) (pos x) (omega (int_laws, h))) [
      | inl run ↦ run
      | inr (_, (b, _, _, negative)) ↦
          absurd (omega (int_laws, negative, *ℤ_parts (pos 0) (b -ℤ active)))
    ]

pub asks-range_shares :
    (lo hi : ℤ) (step : ℕ) (active : ℤ) (x : ℕ)
    → reduce_amounts (λ b. b.amount_x) (pos 0) (asks active step lo hi (pos 0) (pos x))
      ≡ pos (range_shares lo hi step active x)
unfolding asks get_q_price_from_id reduce_amounts
asks-range_shares lo hi step active x =
    reduce-ask_amounts (ids_from_to (active +ℤ lo) (active +ℤ hi)) (get_q_price_base_factor step)
      active (active +ℤ hi) x (last_price hi step active) []
    ∙ +ℤ_zero _

pub total_x-range_shares :
    (lo hi : ℤ) (step : ℕ) (active : ℤ) (x : ℕ)
    → lo ≤ℤ hi
    → total_x lo hi step active (pos 0) (pos x) ≡ ok (pos (range_shares lo hi step active x))
unfolding total_x
total_x-range_shares lo hi step active x h =
    rw (flat_asks active step lo hi x h, asks-range_shares lo hi step active x) refl
