-- ===== src/Swap/Extra/Keys.antt =====
-- index.ts, the map `binArraysForSwap` as the list of its keys.
use mathlib.Core.Path.{subst}
use dlmm_sdk.Prelude.{
  ◌≡◌, refl, ap, ◌∙◌, sym, arith, true, false, List, [], ◌∷◌, ◌++◌, All, append_nil, append_assoc,
  Bool-cases, inl, inr,
}
use dlmm_sdk.Prelude.Int.{ℤ, eqb_ℤ}
use dlmm_sdk.Swap.{has_key, set_key}
use dlmm_sdk.Swap.Extra.{save_extra}

-- No key stands twice.
abbrev pub AreDistinct : List ℤ → Type 0
AreDistinct [] = Unit
AreDistinct (k ∷ keys) = (has_key keys k ≡ false) × AreDistinct keys

eqb_ℤ_comm : (a b : ℤ) → eqb_ℤ a b ≡ eqb_ℤ b a
eqb_ℤ_comm a b = ground arith

pub has_key-append :
    (keys : List ℤ) (j k : ℤ)
    → has_key keys k ≡ false
    → eqb_ℤ j k ≡ false
    → has_key (keys ++ j ∷ []) k ≡ false
unfolding has_key
has_key-append [] j k absent apart = rw apart
has_key-append (i ∷ keys) j k absent apart = elim (Bool-cases (eqb_ℤ i k)) [
  | inl e ↦ grind (arith, rw e at absent)
  | inr e ↦ rw e (has_key-append keys j k (rw e at absent) apart)
]

pub AreDistinct-append :
    (keys : List ℤ) (k : ℤ)
    → AreDistinct keys
    → has_key keys k ≡ false
    → AreDistinct (keys ++ k ∷ [])
unfolding has_key
AreDistinct-append [] k _ absent = (refl, tt)
AreDistinct-append (i ∷ keys) k (own, d) absent = elim (Bool-cases (eqb_ℤ i k)) [
  | inl e ↦ grind (arith, rw e at absent)
  | inr e ↦ (
    has_key-append keys k i own (eqb_ℤ_comm k i ∙ e),
    AreDistinct-append keys k d (rw e at absent),
  )
]

set_key-absent : (keys : List ℤ) (k : ℤ) → has_key keys k ≡ false → set_key keys k ≡ keys ++ k ∷ []
unfolding has_key set_key
set_key-absent [] k absent = refl
set_key-absent (i ∷ keys) k absent = elim (Bool-cases (eqb_ℤ i k)) [
  | inl e ↦ grind (arith, rw e at absent)
  | inr e ↦ rw e (ap (λ (js : List ℤ). i ∷ js) (set_key-absent keys k (rw e at absent)))
]

still_absent :
    (used extra : List ℤ) (k : ℤ)
    → has_key extra k ≡ false
    → All (λ j. has_key used j ≡ false) extra
    → All (λ j. has_key (used ++ k ∷ []) j ≡ false) extra
unfolding has_key
still_absent used [] k _ _ = tt
still_absent used (i ∷ extra) k absent (own, rest) = elim (Bool-cases (eqb_ℤ i k)) [
  | inl e ↦ grind (arith, rw e at absent)
  | inr e ↦ (
    has_key-append used k i own (eqb_ℤ_comm k i ∙ e),
    still_absent used extra k (rw e at absent) rest,
  )
]

-- Distinct arrays that the swap does not use stand after the swap's, in their order.
pub save_extra-append :
    (used extra : List ℤ)
    → AreDistinct extra
    → All (λ j. has_key used j ≡ false) extra
    → save_extra used extra ≡ used ++ extra
unfolding save_extra
save_extra-append used [] _ _ = sym (append_nil used)
save_extra-append used (k ∷ extra) (own, d) (absent, rest) =
    ap (λ (js : List ℤ). save_extra js extra) (set_key-absent used k absent)
    ∙ save_extra-append (used ++ k ∷ []) extra d (still_absent used extra k own rest)
    ∙ append_assoc used (k ∷ []) extra

set_key-present : (keys : List ℤ) (k : ℤ) → has_key keys k ≡ true → set_key keys k ≡ keys
unfolding has_key set_key
set_key-present [] k h = grind (arith, h)
set_key-present (i ∷ keys) k h = elim (Bool-cases (eqb_ℤ i k)) [
  | inl e ↦ rw e
  | inr e ↦ rw e (ap (λ (js : List ℤ). i ∷ js) (set_key-present keys k (rw e at h)))
]

-- Setting a key keeps each key once.
pub set_key-AreDistinct : (keys : List ℤ) (k : ℤ) → AreDistinct keys → AreDistinct (set_key keys k)
set_key-AreDistinct keys k d = elim (Bool-cases (has_key keys k)) [
  | inl h ↦ subst AreDistinct (sym (set_key-present keys k h)) d
  | inr h ↦ subst AreDistinct (sym (set_key-absent keys k h)) (AreDistinct-append keys k d h)
]

pub save_extra-AreDistinct :
    (used extra : List ℤ) → AreDistinct used → AreDistinct (save_extra used extra)
unfolding save_extra
save_extra-AreDistinct used [] d = d
save_extra-AreDistinct used (k ∷ extra) d =
    save_extra-AreDistinct (set_key used k) extra (set_key-AreDistinct used k d)
