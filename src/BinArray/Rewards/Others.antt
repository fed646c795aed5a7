-- ===== src/BinArray/Rewards/Others.antt =====
-- binArray.ts, `updateBinArray`: the bins that it leaves alone.
use dlmm_sdk.Prelude.{
  ℕ, zero, suc, ◌≡◌, refl, sym, ap, ◌∙◌, ◌⊎◌, inl, inr, ◌==◌, List, [], ◌∷◌, get_elem?, ok,
  ok_injective, Result-cases, Option-cases, Bool-cases, ◌||◌,
}
use dlmm_sdk.Prelude.Int.{ℤ, pos, negsuc, ◌-ℤ◌, ◌*ℤ◌, ltb_ℤ}
use dlmm_sdk.Pair.{Bin, BinArray}
use dlmm_sdk.BinArray.{get_bin_array_lower_upper_bin_id, get_bin_id_index_in_bin_array}
use dlmm_sdk.BinArray.Rewards.{
  RewardInfo, put_at, update_stored, update_active_bin, update_bin_array,
}

get_elem?-put_at :
    (xs : List Bin) (i : ℕ) (a : Bin) (n : ℕ)
    → (n ≡ i) ⊎ (get_elem? (put_at xs i a) n ≡ get_elem? xs n)
get_elem?-put_at [] i a n = inr refl
get_elem?-put_at (x ∷ xs) zero a zero = inl refl
get_elem?-put_at (x ∷ xs) zero a (suc n) = inr refl
get_elem?-put_at (x ∷ xs) (suc i) a zero = inr refl
get_elem?-put_at (x ∷ xs) (suc i) a (suc n) = elim (get_elem?-put_at xs i a n) [
  | inl e ↦ inl (ap suc e)
  | inr e ↦ inr e
]

update_active_bin-others :
    (t : ℤ) (rewards : List RewardInfo) (arr out : BinArray) (i : ℤ) (n : ℕ)
    → update_active_bin t rewards arr i ≡ ok out
    → (pos n ≡ i) ⊎ (get_elem? out.bins n ≡ get_elem? arr.bins n)
unfolding update_active_bin
update_active_bin-others t rewards arr out (negsuc k) n h = cc
update_active_bin-others t rewards arr out (pos k) n h =
    elim (Option-cases (get_elem? arr.bins k)) [
      | inl e ↦ let g = rw e at h in cc
      | inr (bin, e) ↦ elim (Bool-cases (bin.liquidity_supply == 0)) [
        | inl z ↦
            let g = rw (e, z) at h in
            inr (ap (λ (a : BinArray). get_elem? a.bins n) (sym (ok_injective arr out g)))
        | inr s ↦
            elim (Result-cases
              (update_stored bin.liquidity_supply t rewards bin.reward_per_token_stored)) [
                | inl (stored, u) ↦
                    let g = rw (e, s, u) at h in
                    let same =
                      ap (λ (a : BinArray). get_elem? a.bins n) (sym (ok_injective _ out g)) in
                    elim (get_elem?-put_at arr.bins k _ n) [
                      | inl at ↦ inl (ap pos at)
                      | inr kept ↦ inr (same ∙ kept)
                    ]
                | inr (thrown, u) ↦ let g = rw (e, s, u) at h in cc
              ]
      ]
    ]

-- A bin that is not at the place of the active bin is as it was.
pub update_bin_array-others :
    (active_id unix_timestamp : ℤ) (rewards : List RewardInfo) (arr out : BinArray) (n : ℕ)
    → update_bin_array active_id unix_timestamp rewards arr ≡ ok out
    → (pos n ≡ active_id -ℤ arr.index *ℤ pos 70) ⊎ (get_elem? out.bins n ≡ get_elem? arr.bins n)
unfolding update_bin_array get_bin_id_index_in_bin_array get_bin_array_lower_upper_bin_id
update_bin_array-others active_id t rewards arr out n h =
    let bounds = get_bin_array_lower_upper_bin_id arr.index in
    elim (Bool-cases (ltb_ℤ active_id bounds.0 || ltb_ℤ bounds.1 active_id)) [
      | inl outside ↦
          let g = rw outside at h in
          inr (ap (λ (a : BinArray). get_elem? a.bins n) (sym (ok_injective arr out g)))
      | inr inside ↦
          update_active_bin-others t rewards arr out (active_id -ℤ bounds.0) n (rw inside at h)
    ]
