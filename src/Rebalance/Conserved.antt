-- ===== src/Rebalance/Conserved.antt =====
-- rebalancePosition.ts, `_simulateWithdraw` over all its ranges.
use mathlib.Core.Path.{subst}
use dlmm_sdk.Prelude.{
  ◌+◌, ◌-◌, ◌≡◌, refl, sym, ap, ◌∙◌, arith, inl, inr, Bool, true, ◌&&◌, some, List, [], ◌∷◌, All,
  ok, Bool-cases, &&_true, leb→le,
}
use dlmm_sdk.Prelude.Int.{ℤ, pos, pos_part, neg_part, ◌+ℤ◌, int_laws, parts_of_eq, leb_ℤ}
use dlmm_sdk.Positions.{ids_from_to}
use dlmm_sdk.Positions.Coverage.{get_elem?-indexes_from}
use dlmm_sdk.Rebalance.{
  RebalancePositionBinData, RebalancePosition, RebalanceWithWithdraw, or_active,
  bin_range_to_bin_id_array, total_amounts, total_fee_amounts, total_reward_amounts,
}
use dlmm_sdk.Rebalance.Withdraw.{
  Withdrawal, withdraw_ids, in_position, withdraw_ranges, simulate_withdraw, nothing_withdrawn,
}
use dlmm_sdk.Rebalance.Sums.{total-sum}
use dlmm_sdk.Rebalance.Totals.{bin_ids, IsAmong, IsKept, IsKept-trans, withdraw_at-IsKept}

IsKept-refl : (w : Withdrawal) → IsKept w w
IsKept-refl w = record { x = refl; y = refl; r0 = refl; r1 = refl; same = refl }

-- The bins of a position are those from its lower to its upper id.
abbrev pub HasRange : RebalancePosition → Type 0
HasRange p =
    bin_ids p.rebalance_position_bin_data ≡ bin_range_to_bin_id_array p.lower_bin_id p.upper_bin_id

pub range-IsAmong :
    (lower upper b : ℤ)
    → leb_ℤ lower b && leb_ℤ b upper ≡ true
    → IsAmong (bin_range_to_bin_id_array lower upper) b
unfolding bin_range_to_bin_id_array
range-IsAmong lower upper b h =
    let both = &&_true (leb_ℤ lower b) (leb_ℤ b upper) h in
    let lo = leb→le (pos_part lower + neg_part b) (pos_part b + neg_part lower) both.0 in
    let hi = leb→le (pos_part b + neg_part upper) (pos_part upper + neg_part b) both.1 in
    let n = pos_part b + neg_part lower - (pos_part lower + neg_part b) in
    let at : lower +ℤ pos n ≡ b = omega (int_laws, lo) in
    (
      n,
      get_elem?-indexes_from (ids_from_to lower upper) lower n (omega (arith, lo, hi)) ∙ ap some at,
    )

in_position-IsAmong :
    (lower upper : ℤ) (ids : List ℤ)
    → All (IsAmong (bin_range_to_bin_id_array lower upper)) (in_position lower upper ids)
unfolding in_position
in_position-IsAmong lower upper [] = tt
in_position-IsAmong lower upper (b ∷ ids) =
    let rest = in_position-IsAmong lower upper ids in
    elim (Bool-cases (leb_ℤ lower b && leb_ℤ b upper)) [
      | inl h ↦ rw h (range-IsAmong lower upper b h, rest)
      | inr h ↦ rw h rest
    ]

withdraw_ids-IsKept :
    (fee reward : Bool) (bps : ℤ) (ids : List ℤ) (w : Withdrawal)
    → All (IsAmong (bin_ids w.0)) ids
    → (v : Withdrawal) × (withdraw_ids fee reward bps ids w ≡ ok v) × IsKept w v
unfolding withdraw_ids
withdraw_ids-IsKept fee reward bps [] w _ = (w, refl, IsKept-refl w)
withdraw_ids-IsKept fee reward bps (i ∷ ids) w (among, rest) =
    let (v, run, kept) = withdraw_at-IsKept fee reward bps i w among in
    let (u, runs, after) =
      withdraw_ids-IsKept fee reward bps ids v
        (subst (λ (js : List ℤ). All (IsAmong js) ids) (sym kept.same) rest) in
    (u, rw run runs, IsKept-trans w v u kept after)

withdraw_ranges-IsKept :
    (p : RebalancePosition) (withdraws : List RebalanceWithWithdraw) (w : Withdrawal)
    → bin_ids w.0 ≡ bin_range_to_bin_id_array p.lower_bin_id p.upper_bin_id
    → (v : Withdrawal) × (withdraw_ranges p withdraws w ≡ ok v) × IsKept w v
unfolding withdraw_ranges
withdraw_ranges-IsKept p [] w _ = (w, refl, IsKept-refl w)
withdraw_ranges-IsKept p (range ∷ withdraws) w shape =
    let ids =
      bin_range_to_bin_id_array (or_active p.active_id range.min_bin_id)
        (or_active p.active_id range.max_bin_id) in
    let own = in_position p.lower_bin_id p.upper_bin_id ids in
    let (v, run, kept) =
      withdraw_ids-IsKept p.should_claim_fee p.should_claim_reward range.bps own w (
        subst (λ (js : List ℤ). All (IsAmong js) own) (sym shape)
          (in_position-IsAmong p.lower_bin_id p.upper_bin_id ids)) in
    let (u, runs, after) = withdraw_ranges-IsKept p withdraws v (kept.same ∙ shape) in
    (u, rw run runs, IsKept-trans w v u kept after)

-- The totals of a position and what was withdrawn from it, of X, of Y and of the rewards.
pub record IsConserved (before : List RebalancePositionBinData) (v : Withdrawal) : Type 0 where
  pub x :
      (total_amounts v.0).0 +ℤ (total_fee_amounts v.0).0 +ℤ v.1.liquidity_and_fee_x_withdrawn
      ≡ (total_amounts before).0 +ℤ (total_fee_amounts before).0
  pub y :
      (total_amounts v.0).1 +ℤ (total_fee_amounts v.0).1 +ℤ v.1.liquidity_and_fee_y_withdrawn
      ≡ (total_amounts before).1 +ℤ (total_fee_amounts before).1
  pub reward_0 :
      (total_reward_amounts v.0).0 +ℤ v.1.rewards_amount_claimed.0 ≡ (total_reward_amounts before).0
  pub reward_1 :
      (total_reward_amounts v.0).1 +ℤ v.1.rewards_amount_claimed.1 ≡ (total_reward_amounts before).1
  pub same : bin_ids v.0 ≡ bin_ids before

kept-IsConserved :
    (before : List RebalancePositionBinData) (v : Withdrawal)
    → IsKept (before, nothing_withdrawn) v
    → IsConserved before v
unfolding total_amounts total_fee_amounts total_reward_amounts
kept-IsConserved before v k = record {
  x = omega (
    int_laws,
    parts_of_eq _ _ k.x,
    parts_of_eq _ _ (total-sum (λ b. b.amount_x) (λ b. b.claimable_fee_x_amount) before),
    parts_of_eq _ _ (total-sum (λ b. b.amount_x) (λ b. b.claimable_fee_x_amount) v.0),
  );
  y = omega (
    int_laws,
    parts_of_eq _ _ k.y,
    parts_of_eq _ _ (total-sum (λ b. b.amount_y) (λ b. b.claimable_fee_y_amount) before),
    parts_of_eq _ _ (total-sum (λ b. b.amount_y) (λ b. b.claimable_fee_y_amount) v.0),
  );
  reward_0 = omega (int_laws, parts_of_eq _ _ k.r0);
  reward_1 = omega (int_laws, parts_of_eq _ _ k.r1);
  same = k.same;
}

-- For a position whose bins are those from its lower to its upper id, the withdrawal does not throw,
-- whatever the ranges and their basis points are. The totals of the amounts and fees that the position
-- still has, with what was withdrawn, are those from before, for both tokens; the same holds of the
-- rewards, and the bins keep their ids.
pub simulate_withdraw-IsConserved :
    (p : RebalancePosition) (withdraws : List RebalanceWithWithdraw)
    → HasRange p
    → (v : Withdrawal) × (simulate_withdraw p withdraws ≡ ok v)
      × IsConserved p.rebalance_position_bin_data v
unfolding simulate_withdraw
simulate_withdraw-IsConserved p withdraws shape =
    let before = p.rebalance_position_bin_data in
    let (v, run, kept) = withdraw_ranges-IsKept p withdraws (before, nothing_withdrawn) shape in
    (v, run, kept-IsConserved before v kept)
