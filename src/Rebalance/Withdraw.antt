-- ===== src/Rebalance/Withdraw.antt =====
-- rebalancePosition.ts, `_simulateWithdraw`: part of the amounts of each bin of the ranges is
-- withdrawn, and its fees and rewards are claimed if the position asks for it.
use dlmm_sdk.Prelude.{Bool, ◌&&◌, if◌then◌else◌, List, [], ◌∷◌, Result, ok, err, ◌>>=◌, type_error}
use dlmm_sdk.Prelude.Int.{ℤ, pos, ◌+ℤ◌, ◌-ℤ◌, ◌*ℤ◌, tdiv, leb_ℤ, eqb_ℤ}
use dlmm_sdk.Constants.{basis_point_max}
use dlmm_sdk.Rebalance.{
  RebalancePositionBinData, RebalancePosition, RebalanceWithWithdraw, or_active,
  bin_range_to_bin_id_array,
}

pub record SimulateWithdrawResult : Type 0 where
  pub liquidity_and_fee_x_withdrawn : ℤ
  pub liquidity_and_fee_y_withdrawn : ℤ
  pub rewards_amount_claimed : ℤ × ℤ

-- A bin and what has been withdrawn so far.
abbrev pub Withdrawing : Type 0
Withdrawing = RebalancePositionBinData × SimulateWithdrawResult

abbrev pub part_of : (bps amount : ℤ) → ℤ
part_of bps amount = tdiv (amount *ℤ bps) basis_point_max

unfoldable pub withdraw_amounts : ℤ → Withdrawing → Withdrawing
withdraw_amounts bps (b, r) = (
  record b {
    amount_x = b.amount_x -ℤ part_of bps b.amount_x;
    amount_y = b.amount_y -ℤ part_of bps b.amount_y;
  },
  record r {
    liquidity_and_fee_x_withdrawn = r.liquidity_and_fee_x_withdrawn +ℤ part_of bps b.amount_x;
    liquidity_and_fee_y_withdrawn = r.liquidity_and_fee_y_withdrawn +ℤ part_of bps b.amount_y;
  },
)

unfoldable pub claim_fee : Withdrawing → Withdrawing
claim_fee (b, r) = (
  record b { claimable_fee_x_amount = pos 0; claimable_fee_y_amount = pos 0 },
  record r {
    liquidity_and_fee_x_withdrawn = r.liquidity_and_fee_x_withdrawn +ℤ b.claimable_fee_x_amount;
    liquidity_and_fee_y_withdrawn = r.liquidity_and_fee_y_withdrawn +ℤ b.claimable_fee_y_amount;
  },
)

unfoldable pub claim_reward : Withdrawing → Withdrawing
claim_reward (b, r) = (
  record b { claimable_reward_amount = (pos 0, pos 0) },
  record r {
    rewards_amount_claimed = (
      r.rewards_amount_claimed.0 +ℤ b.claimable_reward_amount.0,
      r.rewards_amount_claimed.1 +ℤ b.claimable_reward_amount.1,
    );
  },
)

unfoldable pub withdraw_bin : (fee reward : Bool) → ℤ → Withdrawing → Withdrawing
withdraw_bin fee reward bps w =
    let v = withdraw_amounts bps w in
    let u = if fee then claim_fee v else v in if reward then claim_reward u else u

-- The bins of a position and what has been withdrawn so far.
abbrev pub Withdrawal : Type 0
Withdrawal = List RebalancePositionBinData × SimulateWithdrawResult

abbrev pub behind : RebalancePositionBinData → Result Withdrawal → Result Withdrawal
behind b (err e) = err e
behind b (ok (bins, r)) = ok (b ∷ bins, r)

-- `findIndex` and the update of that bin. Without a bin of that id, the amount of `undefined` is read.
unfoldable pub withdraw_at : (fee reward : Bool) → ℤ → ℤ → Withdrawal → Result Withdrawal
withdraw_at fee reward bps bin_id ([], r) = err type_error
withdraw_at fee reward bps bin_id (b ∷ bins, r) =
    let done = withdraw_bin fee reward bps (b, r) in
    let rest = withdraw_at fee reward bps bin_id (bins, r) in
    if eqb_ℤ b.bin_id bin_id then ok (done.0 ∷ bins, done.1) else behind b rest

unfoldable pub withdraw_ids : (fee reward : Bool) → ℤ → List ℤ → Withdrawal → Result Withdrawal
withdraw_ids fee reward bps [] w = ok w
withdraw_ids fee reward bps (bin_id ∷ ids) w =
    withdraw_at fee reward bps bin_id w >>= (λ v. withdraw_ids fee reward bps ids v)

-- The `filter` by the bounds of the position.
unfoldable pub in_position : (lower upper : ℤ) → List ℤ → List ℤ
in_position lower upper [] = []
in_position lower upper (b ∷ ids) =
    let rest = in_position lower upper ids in
    if leb_ℤ lower b && leb_ℤ b upper then b ∷ rest else rest

unfoldable pub withdraw_ranges :
    RebalancePosition → List RebalanceWithWithdraw → Withdrawal → Result Withdrawal
withdraw_ranges p [] w = ok w
withdraw_ranges p (range ∷ withdraws) w =
    let ids =
      bin_range_to_bin_id_array (or_active p.active_id range.min_bin_id)
        (or_active p.active_id range.max_bin_id) in
    withdraw_ids p.should_claim_fee p.should_claim_reward range.bps
      (in_position p.lower_bin_id p.upper_bin_id ids) w
    >>= (λ v. withdraw_ranges p withdraws v)

abbrev pub nothing_withdrawn : SimulateWithdrawResult
nothing_withdrawn = record {
  liquidity_and_fee_x_withdrawn = pos 0;
  liquidity_and_fee_y_withdrawn = pos 0;
  rewards_amount_claimed = (pos 0, pos 0);
}

-- The new bins of the position, and the result.
unfoldable pub simulate_withdraw :
    RebalancePosition → List RebalanceWithWithdraw → Result Withdrawal
simulate_withdraw p withdraws =
    withdraw_ranges p withdraws (p.rebalance_position_bin_data, nothing_withdrawn)
