-- ===== src/Positions/Processed/Entry.antt =====
-- index.ts, `processPosition`: what a position has of a bin.
use native.Mathlib.Nat.{mul-le-mul, le_refl, div-le_of_le-mul}
use dlmm_sdk.Prelude.{
  ℕ, ◌*◌, ◌/◌, ◌^◌, ◌<◌, ◌≤◌, ◌==◌, ◌≡◌, ◌⊎◌, refl, arith, inl, inr, true, false, ◌&&◌, not,
  Bool-cases, some, List, [], ◌∷◌, length, get_elem?-some, ok,
}
use dlmm_sdk.Prelude.Int.{ℤ, pos, ◌+ℤ◌, ◌-ℤ◌, ◌*ℤ◌, tdiv, min_ℤ, eqb_ℤ}
use dlmm_sdk.BinArray.Rewards.{RewardInfo, is_reward_initialized, reward_delta}
use dlmm_sdk.Positions.Listing.{BinLiquidity}
use dlmm_sdk.Positions.Processed.{
  UserFeeInfo, UserRewardInfo, ProcessedBin, mul_shr_ℤ, processed_bin, position_amount,
  stored_reward, claimable_reward, process_bin,
}

-- What a position has of a bin: a share of the supply at most, and places for two rewards. The supply of a
-- bin is none, or one unit at least.
pub record IsHeld (bin : BinLiquidity) (share : ℕ) (info : UserRewardInfo) : Type 0 where
  pub within : share ≤ bin.supply
  pub scaled : (bin.supply ≡ 0) ⊎ (2 ^ 64 ≤ bin.supply)
  pub stored : 2 ≤ length bin.reward_per_token_stored
  pub completes : 2 ≤ length info.reward_per_token_completes
  pub pendings : 2 ≤ length info.reward_pendings

unfoldable pub AllHeld :
    List BinLiquidity → List ℕ → List UserFeeInfo → List UserRewardInfo → Type 0
AllHeld [] shares fees infos = Unit
AllHeld (bin ∷ bins) (share ∷ shares) (fee ∷ fees) (info ∷ infos) =
    IsHeld bin share info × AllHeld bins shares fees infos
AllHeld (bin ∷ bins) shares fees infos = ⊥

position_amount-le :
    (supply share amount : ℕ) → share ≤ supply → position_amount supply share amount ≤ amount
unfolding position_amount
position_amount-le supply share amount h = elim (Bool-cases (supply == 0)) [
  | inl none_left ↦ rw none_left (omega arith)
  | inr some_left ↦
      let part : share * amount ≤ supply * amount = mul-le-mul h (le_refl amount) in
      rw some_left (div-le_of_le-mul supply part)
]

module _ (active t : ℤ) where
  one_unit :
      (bin : BinLiquidity) (share : ℕ) (info : UserRewardInfo)
      → IsHeld bin share info
      → (eqb_ℤ bin.bin_id active && not (bin.supply == 0)) ≡ true
      → bin.supply / 2 ^ 64 == 0 ≡ false
  one_unit bin share info held now = elim held.scaled [
    | inl nothing ↦ ground (arith, nothing, now)
    | inr unit ↦ ground (arith, unit)
  ]

  stored_reward_ok :
      (bin : BinLiquidity) (share : ℕ) (info : UserRewardInfo) (r : RewardInfo) (j : ℕ)
      → IsHeld bin share info
      → j < 2
      → (x : ℤ) × (stored_reward active t bin j r ≡ ok x)
  unfolding stored_reward reward_delta
  stored_reward_ok bin share info r j held h =
      let (x, e) = get_elem?-some bin.reward_per_token_stored j (omega (arith, h, held.stored)) in
      elim (Bool-cases (eqb_ℤ bin.bin_id active && not (bin.supply == 0))) [
        | inl now ↦
            let one : bin.supply / 2 ^ 64 == 0 ≡ false = one_unit bin share info held now in
            (
              x
                  +ℤ tdiv
                      (tdiv
                        (pos r.reward_rate
                          *ℤ (min_ℤ t (pos r.reward_duration_end) -ℤ pos r.last_update_time))
                        15)
                      (bin.supply / 2 ^ 64),
              rw (now, one, e) refl,
            )
        | inr past ↦ (x, rw (past, e) refl)
      ]

  claimable_reward_ok :
      (bin : BinLiquidity) (share : ℕ) (info : UserRewardInfo) (r : RewardInfo) (j : ℕ)
      → IsHeld bin share info
      → j < 2
      → (x : ℤ) × (claimable_reward active t bin share j (some info) r ≡ ok x)
  unfolding claimable_reward
  claimable_reward_ok bin share info r j held h =
      let (stored, es) = stored_reward_ok bin share info r j held h in
      let (complete, ec) =
        get_elem?-some info.reward_per_token_completes j (omega (arith, h, held.completes)) in
      let (pending, ep) = get_elem?-some info.reward_pendings j (omega (arith, h, held.pendings)) in
      elim (Bool-cases (is_reward_initialized r)) [
        | inl active ↦ (
          mul_shr_ℤ (stored -ℤ pos complete) (pos (share / 2 ^ 64)) +ℤ pos pending,
          rw (active, es, ec, ep) refl,
        )
        | inr idle ↦ (pos 0, rw idle refl)
      ]

-- The entry of a bin, with at most its amounts.
abbrev pub IsPart : BinLiquidity → ProcessedBin → Type 0
IsPart bin b =
    (b.bin_id ≡ bin.bin_id)
    × (b.position_x_amount ≤ bin.x_amount)
    × (b.position_y_amount ≤ bin.y_amount)

pub process_bin-IsPart :
    (active t : ℤ) (rewards : RewardInfo × RewardInfo) (bin : BinLiquidity) (share : ℕ)
    (fee : UserFeeInfo) (info : UserRewardInfo)
    → IsHeld bin share info
    → (b : ProcessedBin) × (process_bin active t rewards bin share fee (some info) ≡ ok b)
      × IsPart bin b
unfolding process_bin
process_bin-IsPart active t rewards bin share fee info held =
    let (one, e) = claimable_reward_ok active t bin share info rewards.0 0 held (omega arith) in
    let (two, e') = claimable_reward_ok active t bin share info rewards.1 1 held (omega arith) in
    (
      processed_bin bin share fee one two,
      rw (e, e') refl,
      (
        refl,
        position_amount-le bin.supply share bin.x_amount held.within,
        position_amount-le bin.supply share bin.y_amount held.within,
      ),
    )
