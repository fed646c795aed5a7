-- ===== src/Rebalance/Liquidity/Spot/Finds.antt =====
-- spot.ts, `findX0` and `findY0`: the bases that they find.
use native.Mathlib.Nat.{div-mul-le_self, div-le_self, mul-le-mul, le_refl, zero-div, zero-add}
use dlmm_sdk.Prelude.{
  ℕ, zero, suc, ◌+◌, ◌-◌, ◌*◌, ◌/◌, ◌^◌, ◌≤◌, ◌<◌, ◌≡◌, refl, sym, ap, inl, inr, arith, false,
  Bool-cases, some, ok, le→ltb-false, ltb-false→le, leb→le, leb-false→lt, pos_test, leb,
}
use dlmm_sdk.Prelude.Int.{
  ℤ, pos, pos_part, neg_part, neg_ℤ, ◌+ℤ◌, ◌-ℤ◌, ◌≤ℤ◌, ltb_ℤ, leb_ℤ, ltb_ℤ→lt, int_laws, pos_mul,
  tdiv,
}
use dlmm_sdk.Constants.{scale_offset}
use dlmm_sdk.Math.{get_q_price_base_factor}
use dlmm_sdk.Positions.{ids_from_to}
use dlmm_sdk.Rebalance.Deposit.{div_ℤ}
use dlmm_sdk.Rebalance.Liquidity.Spot.{find_y0, find_base_x0, x0_loop, find_x0}
use dlmm_sdk.Rebalance.Liquidity.Spot.Shares.{
  price_sum, share_sum, weight_loop-price_sum, share_sum-le, share_sum-reaches, last_price,
  range_shares, total_x-range_shares,
}

pub share_sum_zero : (n base price : ℕ) → share_sum n base price 0 ≡ 0
share_sum_zero zero base price = refl
share_sum_zero (suc n) base price =
    omega (arith, share_sum_zero n base (price * base / 2 ^ scale_offset))

pub div_ℤ_pos : (a b : ℕ) → 0 < b → div_ℤ (pos a) (pos b) ≡ ok (pos (a / b))
unfolding div_ℤ tdiv
div_ℤ_pos a b h = rw (pos_test b h) refl

module _ (a : ℕ) (lo hi : ℤ) (step : ℕ) (active : ℤ) where
  abbrev shares : ℕ → ℕ
  shares x = range_shares lo hi step active x

  -- A base whose shares fit the amount, while one more unit reaches it.
  abbrev pub IsLargest : ℕ → Type 0
  IsLargest r = (shares r ≤ a) × (a ≤ shares (suc r))

  module _ (some_amount : 0 < a) (fits : lo ≤ℤ hi) (price : 0 < last_price hi step active) where
    below_amount : (x : ℕ) → shares x < a → x < a * 2 ^ 64
    below_amount x h =
        let k =
          pos_part (active +ℤ hi)
          + neg_part (active +ℤ lo)
          - (pos_part (active +ℤ lo) + neg_part (active +ℤ hi)) in
        let count : ids_from_to (active +ℤ lo) (active +ℤ hi) ≡ suc k = omega (int_laws, fits) in
        let e : shares x
            ≡ share_sum (suc k) (get_q_price_base_factor step) (last_price hi step active) x =
          ap (λ (n : ℕ). share_sum n (get_q_price_base_factor step) (last_price hi step active) x)
            count in
        elim (Bool-cases (leb (a * 2 ^ 64) x)) [
          | inl le ↦
              let all =
                share_sum-reaches k (get_q_price_base_factor step) (last_price hi step active) a x
                  price (leb→le _ _ le) in
              absurd (omega (arith, h, e, all))
          | inr more ↦ leb-false→lt _ _ more
        ]

    stops :
        (x : ℕ)
        → ((y : ℕ) → suc y ≡ x → shares y ≤ a)
        → a ≤ shares x
        → (r : ℕ) × (some (ok (pos x -ℤ pos 1)) ≡ some (ok (pos r))) × IsLargest r
    stops zero before reached = absurd (
        omega (
          arith,
          reached,
          some_amount,
          share_sum_zero (ids_from_to (active +ℤ lo) (active +ℤ hi)) (get_q_price_base_factor step)
              (last_price hi step active),
        ))
    stops (suc y) before reached =
        let e : pos (suc y) -ℤ pos 1 ≡ pos y = omega int_laws in
        (y, ap (λ (z : ℤ). some (ok z)) e, (before y refl, reached))

    x0_loop_finds :
        (fuel x : ℕ)
        → a * 2 ^ 64 < fuel + x
        → x ≤ a * 2 ^ 64
        → ((y : ℕ) → suc y ≡ x → shares y ≤ a)
        → (r : ℕ) × (x0_loop fuel (pos a) lo hi step active (pos x) ≡ some (ok (pos r)))
          × IsLargest r
    unfolding x0_loop
    x0_loop_finds zero x enough small before = absurd (omega (arith, enough, small))
    x0_loop_finds (suc fuel) x enough small before =
        rw (total_x-range_shares lo hi step active x fits)
          (elim (Bool-cases (ltb_ℤ (pos (shares x)) (pos a))) [
            | inl more ↦
                let less : shares x < a = omega (arith, ltb_ℤ→lt (pos (shares x)) (pos a) more) in
                let e : pos x +ℤ pos 1 ≡ pos (suc x) = omega int_laws in
                rw (more, e)
                  (x0_loop_finds fuel (suc x) (omega (arith, enough)) (below_amount x less)
                    (λ y same.
                      let y_is : y ≡ x = omega (arith, same) in rw y_is (omega (arith, less))))
            | inr stop ↦
                rw stop (stops x before (omega (arith, ltb-false→le (shares x + 0) (a + 0) stop)))
          ])

    weights : ℕ
    weights =
        price_sum (ids_from_to (active +ℤ lo) (active +ℤ hi)) (get_q_price_base_factor step)
          (last_price hi step active)

    weights_pos : 0 < weights
    unfolding weights
    weights_pos =
        let k =
          pos_part (active +ℤ hi)
          + neg_part (active +ℤ lo)
          - (pos_part (active +ℤ lo) + neg_part (active +ℤ hi)) in
        let count : ids_from_to (active +ℤ lo) (active +ℤ hi) ≡ suc k = omega (int_laws, fits) in
        let e : weights
            ≡ price_sum (suc k) (get_q_price_base_factor step) (last_price hi step active) =
          ap (λ (n : ℕ). price_sum n (get_q_price_base_factor step) (last_price hi step active))
            count in
        omega (arith, e, price)

    find_base_x0_lem : find_base_x0 (pos a) lo hi step active ≡ ok (pos (a * 2 ^ 64 / weights))
    unfolding find_base_x0 weights
    find_base_x0_lem =
        rw
          (
            weight_loop-price_sum (ids_from_to (active +ℤ lo) (active +ℤ hi))
                (get_q_price_base_factor step) (last_price hi step active) 0,
            zero-add,
            pos_mul a (2 ^ 64),
          )
          (div_ℤ_pos (a * 2 ^ 64) weights weights_pos)

    under_base : (y : ℕ) → y ≤ a * 2 ^ 64 / weights → shares y ≤ a
    unfolding weights
    under_base y h =
        let n = ids_from_to (active +ℤ lo) (active +ℤ hi) in
        let all = share_sum-le n (get_q_price_base_factor step) (last_price hi step active) y in
        let more : y * weights ≤ a * 2 ^ 64 / weights * weights = mul-le-mul h (le_refl weights) in
        omega (arith, all, more, div-mul-le_self (a * 2 ^ 64) weights)

    -- For a positive amount, a range that is not empty and a price of its last bin that is not zero,
    -- `findX0` ends with enough fuel, with a base for which the amounts of the bins fit the amount,
    -- while one unit more reaches it.
    pub find_x0_finds :
        (fuel : ℕ)
        → a * 2 ^ 64 < fuel
        → (r : ℕ) × (find_x0 fuel (pos a) lo hi step active ≡ some (ok (pos r))) × IsLargest r
    unfolding find_x0
    find_x0_finds fuel enough =
        let base = a * 2 ^ 64 / weights in
        let range : ltb_ℤ hi lo ≡ false = le→ltb-false _ _ fits in
        let amount : leb_ℤ (pos a) (pos 0) ≡ false = ground arith in
        let found =
          x0_loop_finds fuel base (omega (arith, enough)) (div-le_self (a * 2 ^ 64) weights)
            (λ y e. under_base y (omega (arith, e))) in
        rw (range, amount, find_base_x0_lem) found

-- The base of Y for a range.
pub find_y0_lem :
    (a : ℕ) (lo hi : ℤ) → lo ≤ℤ hi → find_y0 (pos a) lo hi ≡ ok (pos (a / ids_from_to lo hi))
unfolding find_y0
find_y0_lem a lo hi h =
    let n = ids_from_to lo hi in
    let range : ltb_ℤ hi lo ≡ false = le→ltb-false _ _ h in
    let count : neg_ℤ lo -ℤ neg_ℤ hi +ℤ pos 1 ≡ pos n = omega (int_laws, h) in
    let some_bins : 0 < n = omega (arith, h) in
    elim (Bool-cases (leb_ℤ (pos a) (pos 0))) [
      | inl none_left ↦
          let e : a ≡ 0 = omega (arith, leb→le (a + 0) 0 none_left) in
          rw (range, none_left, e) (ap (λ (k : ℕ). ok (pos k)) (sym (zero-div n)))
      | inr more ↦ rw (range, more, count) (div_ℤ_pos a n some_bins)
    ]

pub find_x0_zero :
    (fuel : ℕ) (lo hi : ℤ) (step : ℕ) (active : ℤ)
    → lo ≤ℤ hi
    → find_x0 fuel (pos 0) lo hi step active ≡ some (ok (pos 0))
unfolding find_x0
find_x0_zero fuel lo hi step active h =
    let range : ltb_ℤ hi lo ≡ false = le→ltb-false _ _ h in rw range refl
