-- ===== src/BinArray/Rewards/Growth.antt =====
-- binArray.ts, `updateBinArray`: the stored rewards of a bin over time.
use dlmm_sdk.Prelude.{
  ℕ, ◌-◌, ◌*◌, ◌/◌, ◌^◌, ◌≤◌, ◌≡◌, refl, arith, false, ◌==◌, List, [], ◌∷◌, All, length, ok,
  Bool-cases, inl, inr,
}
use dlmm_sdk.Prelude.Int.{
  ℤ, pos, pos_part, neg_part, ◌+ℤ◌, ◌-ℤ◌, ◌*ℤ◌, ◌≤ℤ◌, int_laws, tdiv, min_ℤ, min_ℤ-cases, *ℤ_parts,
}
use dlmm_sdk.BinArray.Rewards.{RewardInfo, is_reward_initialized, reward_delta, update_stored}

-- The clock and the end of a reward are not before its last update.
abbrev pub IsUpToDate : ℤ → RewardInfo → Type 0
IsUpToDate unix_timestamp r =
    (pos r.last_update_time ≤ℤ unix_timestamp) × (r.last_update_time ≤ r.reward_duration_end)

-- Each stored reward is at least the old one.
pub Grows : List ℤ → List ℤ → Type 0
Grows [] [] = Unit
Grows [] (y ∷ new) = ⊥
Grows (x ∷ old) [] = ⊥
Grows (x ∷ old) (y ∷ new) = (x ≤ℤ y) × Grows old new

Grows-refl : (xs : List ℤ) → Grows xs xs
unfolding Grows
Grows-refl [] = tt
Grows-refl (x ∷ xs) = (omega arith, Grows-refl xs)

nonneg_delta :
    (t : ℤ) (r : RewardInfo)
    → IsUpToDate t r
    → (d : ℕ) × (min_ℤ t (pos r.reward_duration_end) -ℤ pos r.last_update_time ≡ pos d)
nonneg_delta t r (now, end) = elim (min_ℤ-cases t (pos r.reward_duration_end)) [
  | inl (e, _) ↦ (pos_part t - neg_part t - r.last_update_time, rw e (omega (int_laws, now)))
  | inr (e, _) ↦ (r.reward_duration_end - r.last_update_time, rw e (omega (int_laws, end)))
]

pos-mul : (a b : ℕ) → pos a *ℤ pos b ≡ pos (a * b)
pos-mul a b = omega (int_laws, *ℤ_parts (pos a) (pos b))

reward_delta_ok :
    (supply : ℕ) (t : ℤ) (r : RewardInfo)
    → 2 ^ 64 ≤ supply
    → IsUpToDate t r
    → (d : ℕ) × (reward_delta supply t r ≡ ok (pos d))
unfolding reward_delta tdiv
reward_delta_ok supply t r h up =
    let (d, e) = nonneg_delta t r up in
    let some_supply : supply / 2 ^ 64 == 0 ≡ false = ground arith in
    (r.reward_rate * d / 15 / (supply / 2 ^ 64), rw (e, some_supply, pos-mul r.reward_rate d))

-- With a place for each reward, and at least one unit of liquidity, the update of the rewards of a bin
-- does not throw, and no stored reward falls, if no time goes back.
pub update_stored-Grows :
    (supply : ℕ) (unix_timestamp : ℤ) (rewards : List RewardInfo) (stored : List ℤ)
    → 2 ^ 64 ≤ supply
    → All (IsUpToDate unix_timestamp) rewards
    → length rewards ≤ length stored
    → (new : List ℤ) × (update_stored supply unix_timestamp rewards stored ≡ ok new)
      × Grows stored new
unfolding update_stored Grows
update_stored-Grows supply t [] stored h up le = (stored, refl, Grows-refl stored)
update_stored-Grows supply t (r ∷ rewards) [] h up le = elim le [ ]
update_stored-Grows supply t (r ∷ rewards) (x ∷ stored) h (now, up) le =
    let (new, run, grows) = update_stored-Grows supply t rewards stored h up (omega (arith, le)) in
    elim (Bool-cases (is_reward_initialized r)) [
      | inl active ↦
          let (d, e) = reward_delta_ok supply t r h now in
          ((x +ℤ pos d) ∷ new, rw (active, e, run), (omega int_laws, grows))
      | inr idle ↦ (x ∷ new, rw (idle, run), (omega arith, grows))
    ]
