-- ===== src/Rebalance/Totals.antt =====
-- rebalancePosition.ts, `_simulateWithdraw`: what the position loses is what is withdrawn.
use dlmm_sdk.Prelude.{
  ℕ, zero, suc, ◌≡◌, refl, ap, ◌∙◌, arith, inl, inr, Bool, true, false, List, [], ◌∷◌, map, ok,
  Bool-cases, get_elem?, some,
}
use dlmm_sdk.Prelude.Int.{ℤ, ◌+ℤ◌, int_laws, eqb_ℤ}
use dlmm_sdk.Rebalance.{RebalancePositionBinData}
use dlmm_sdk.Rebalance.Withdraw.{
  SimulateWithdrawResult, Withdrawing, Withdrawal, withdraw_amounts, claim_fee, claim_reward,
  withdraw_bin, withdraw_at,
}
use dlmm_sdk.Rebalance.Sums.{total, swap_head, swap_tail}

-- What a bin holds of X, of Y and of the two rewards.
abbrev pub x_of : RebalancePositionBinData → ℤ
x_of b = b.amount_x +ℤ b.claimable_fee_x_amount

abbrev pub y_of : RebalancePositionBinData → ℤ
y_of b = b.amount_y +ℤ b.claimable_fee_y_amount

abbrev pub reward_0 : RebalancePositionBinData → ℤ
reward_0 b = b.claimable_reward_amount.0

abbrev pub reward_1 : RebalancePositionBinData → ℤ
reward_1 b = b.claimable_reward_amount.1

-- The bin and the result have as much as before.
record IsMove (w v : Withdrawing) : Type 0 where
  x : x_of v.0 +ℤ v.1.liquidity_and_fee_x_withdrawn ≡ x_of w.0 +ℤ w.1.liquidity_and_fee_x_withdrawn
  y : y_of v.0 +ℤ v.1.liquidity_and_fee_y_withdrawn ≡ y_of w.0 +ℤ w.1.liquidity_and_fee_y_withdrawn
  r0 : reward_0 v.0 +ℤ v.1.rewards_amount_claimed.0 ≡ reward_0 w.0 +ℤ w.1.rewards_amount_claimed.0
  r1 : reward_1 v.0 +ℤ v.1.rewards_amount_claimed.1 ≡ reward_1 w.0 +ℤ w.1.rewards_amount_claimed.1
  same : v.0.bin_id ≡ w.0.bin_id

withdraw_amounts-IsMove : (bps : ℤ) (w : Withdrawing) → IsMove w (withdraw_amounts bps w)
unfolding withdraw_amounts
withdraw_amounts-IsMove bps (b, r) = record {
  x = omega int_laws;
  y = omega int_laws;
  r0 = refl;
  r1 = refl;
  same = refl;
}

claim_fee-IsMove : (w : Withdrawing) → IsMove w (claim_fee w)
unfolding claim_fee
claim_fee-IsMove (b, r) = record {
  x = omega int_laws;
  y = omega int_laws;
  r0 = refl;
  r1 = refl;
  same = refl;
}

claim_reward-IsMove : (w : Withdrawing) → IsMove w (claim_reward w)
unfolding claim_reward
claim_reward-IsMove (b, r) = record {
  x = refl;
  y = refl;
  r0 = omega int_laws;
  r1 = omega int_laws;
  same = refl;
}

IsMove-trans : (u v w : Withdrawing) → IsMove u v → IsMove v w → IsMove u w
IsMove-trans u v w p q = record {
  x = q.x ∙ p.x;
  y = q.y ∙ p.y;
  r0 = q.r0 ∙ p.r0;
  r1 = q.r1 ∙ p.r1;
  same = q.same ∙ p.same;
}

withdraw_bin-IsMove :
    (fee reward : Bool) (bps : ℤ) (w : Withdrawing) → IsMove w (withdraw_bin fee reward bps w)
unfolding withdraw_bin
withdraw_bin-IsMove true true bps w =
    let v = withdraw_amounts bps w in
    IsMove-trans w v _ (withdraw_amounts-IsMove bps w)
      (IsMove-trans v (claim_fee v) _ (claim_fee-IsMove v) (claim_reward-IsMove (claim_fee v)))
withdraw_bin-IsMove true false bps w =
    let v = withdraw_amounts bps w in
    IsMove-trans w v _ (withdraw_amounts-IsMove bps w) (claim_fee-IsMove v)
withdraw_bin-IsMove false true bps w =
    let v = withdraw_amounts bps w in
    IsMove-trans w v _ (withdraw_amounts-IsMove bps w) (claim_reward-IsMove v)
withdraw_bin-IsMove false false bps w = withdraw_amounts-IsMove bps w

abbrev pub bin_ids : List RebalancePositionBinData → List ℤ
bin_ids bins = map (λ b. b.bin_id) bins

-- The bins and the result have as much as before, and the bins are the same.
pub record IsKept (w v : Withdrawal) : Type 0 where
  pub x :
      total x_of v.0 +ℤ v.1.liquidity_and_fee_x_withdrawn
      ≡ total x_of w.0 +ℤ w.1.liquidity_and_fee_x_withdrawn
  pub y :
      total y_of v.0 +ℤ v.1.liquidity_and_fee_y_withdrawn
      ≡ total y_of w.0 +ℤ w.1.liquidity_and_fee_y_withdrawn
  pub r0 :
      total reward_0 v.0 +ℤ v.1.rewards_amount_claimed.0
      ≡ total reward_0 w.0 +ℤ w.1.rewards_amount_claimed.0
  pub r1 :
      total reward_1 v.0 +ℤ v.1.rewards_amount_claimed.1
      ≡ total reward_1 w.0 +ℤ w.1.rewards_amount_claimed.1
  pub same : bin_ids v.0 ≡ bin_ids w.0

pub IsKept-trans : (u v w : Withdrawal) → IsKept u v → IsKept v w → IsKept u w
IsKept-trans u v w p q = record {
  x = q.x ∙ p.x;
  y = q.y ∙ p.y;
  r0 = q.r0 ∙ p.r0;
  r1 = q.r1 ∙ p.r1;
  same = q.same ∙ p.same;
}

head-IsKept :
    (b : RebalancePositionBinData) (bins : List RebalancePositionBinData)
    (r : SimulateWithdrawResult) (v : Withdrawing)
    → IsMove (b, r) v
    → IsKept (b ∷ bins, r) (v.0 ∷ bins, v.1)
head-IsKept b bins r v m = record {
  x = swap_head x_of b v.0 bins _ _ m.x;
  y = swap_head y_of b v.0 bins _ _ m.y;
  r0 = swap_head reward_0 b v.0 bins _ _ m.r0;
  r1 = swap_head reward_1 b v.0 bins _ _ m.r1;
  same = ap (λ (i : ℤ). i ∷ bin_ids bins) m.same;
}

tail-IsKept :
    (b : RebalancePositionBinData) (w v : Withdrawal)
    → IsKept w v
    → IsKept (b ∷ w.0, w.1) (b ∷ v.0, v.1)
tail-IsKept b w v k = record {
  x = swap_tail x_of b w.0 v.0 _ _ k.x;
  y = swap_tail y_of b w.0 v.0 _ _ k.y;
  r0 = swap_tail reward_0 b w.0 v.0 _ _ k.r0;
  r1 = swap_tail reward_1 b w.0 v.0 _ _ k.r1;
  same = ap (λ (ids : List ℤ). b.bin_id ∷ ids) k.same;
}

abbrev pub IsAmong : List ℤ → ℤ → Type 0
IsAmong ids i = (n : ℕ) × (get_elem? ids n ≡ some i)

pub IsAmong-rest :
    (j i : ℤ) (ids : List ℤ) → IsAmong (j ∷ ids) i → eqb_ℤ j i ≡ false → IsAmong ids i
IsAmong-rest j i ids (zero, at) apart = grind (arith, at, apart)
IsAmong-rest j i ids (suc n, at) apart = (n, at)

pub withdraw_at-IsKept :
    (fee reward : Bool) (bps i : ℤ) (w : Withdrawal)
    → IsAmong (bin_ids w.0) i
    → (v : Withdrawal) × (withdraw_at fee reward bps i w ≡ ok v) × IsKept w v
unfolding withdraw_at
withdraw_at-IsKept fee reward bps i ([], r) (n, at) = grind (arith, at)
withdraw_at-IsKept fee reward bps i (b ∷ bins, r) among = elim (Bool-cases (eqb_ℤ b.bin_id i)) [
  | inl here ↦
      let v = withdraw_bin fee reward bps (b, r) in
      (
        (v.0 ∷ bins, v.1),
        rw here,
        head-IsKept b bins r v (withdraw_bin-IsMove fee reward bps (b, r)),
      )
  | inr apart ↦
      let (v, run, kept) =
        withdraw_at-IsKept fee reward bps i (bins, r)
          (IsAmong-rest b.bin_id i (bin_ids bins) among apart) in
      ((b ∷ v.0, v.1), rw (apart, run), tail-IsKept b (bins, r) v kept)
]
