-- ===== src/Rebalance/Order/Schedules.antt =====
-- rebalancePosition.ts, what `validateAndSortRebalanceWithdraw` and `validateAndSortRebalanceDeposit`
-- return.
use mathlib.Core.List.{Permᴰ}
use mathlib.Core.Path.{subst}
use dlmm_sdk.Prelude.{
  ◌≡◌, refl, ap, arith, inl, inr, true, false, List, [], ◌∷◌, All, map, ok, err, ok_injective,
  Bool-cases, ◌⊎◌, ◌+◌, Error, invalid_bps, invalid_bin_range, ltb-false→le, le→ltb-false,
}
use dlmm_sdk.Prelude.Int.{ℤ, ltb_ℤ, ◌≤ℤ◌, pos_part, neg_part}
use dlmm_sdk.Rebalance.{RebalanceWithWithdraw, or_active}
use dlmm_sdk.Rebalance.Order.{
  sort_by, are_apart, fill_withdraw, fill_withdraws, is_bps_invalid, first_bin, last_bin,
  check_overlap, validate_and_sort_rebalance_withdraw,
}
use dlmm_sdk.Rebalance.Order.Sorted.{
  sort_by-Perm, sort_by-All, AreApart, IsRange, are_apart-AreApart, sort_by-AreApart,
}

-- A range that is filled, with bounds in order and basis points of at most all.
pub record IsFilled (active_id : ℤ) (w : RebalanceWithWithdraw) : Type 0 where
  pub ordered : IsRange (first_bin active_id) (last_bin active_id) w
  pub bps_le : is_bps_invalid w.bps ≡ false
  pub filled : fill_withdraw active_id w ≡ w

pub check_overlap-ok :
    {A : Type 0} (first last : A → ℤ) (xs ys : List A)
    → check_overlap first last xs ≡ ok ys
    → (xs ≡ ys) × (are_apart first last xs ≡ true)
unfolding check_overlap
check_overlap-ok first last xs ys h = elim (Bool-cases (are_apart first last xs)) [
  | inl apart ↦ (ok_injective xs ys (rw apart at h), apart)
  | inr overlap ↦ grind (arith, rw overlap at h)
]

ordered_of : (a b : ℤ) → ltb_ℤ b a ≡ false → a ≤ℤ b
ordered_of a b h = ltb-false→le (pos_part b + neg_part a) (pos_part a + neg_part b) h

fill_withdraw-IsFilled :
    (active_id : ℤ) (w : RebalanceWithWithdraw)
    → is_bps_invalid w.bps ≡ false
    → ltb_ℤ (last_bin active_id w) (first_bin active_id w) ≡ false
    → IsFilled active_id (fill_withdraw active_id w)
fill_withdraw-IsFilled active_id w bps h = record {
  ordered = ordered_of (first_bin active_id w) (last_bin active_id w) h;
  bps_le = bps;
  filled = refl;
}

abbrev Filling : ℤ → List RebalanceWithWithdraw → Type 0
Filling active_id ws =
    ((fill_withdraws active_id ws ≡ ok (map (fill_withdraw active_id) ws))
      × All (IsFilled active_id) (map (fill_withdraw active_id) ws))
    ⊎ ((e : Error) × (fill_withdraws active_id ws ≡ err e))

fill_withdraws-cases : (active_id : ℤ) (ws : List RebalanceWithWithdraw) → Filling active_id ws
unfolding fill_withdraws
fill_withdraws-cases active_id [] = inl (refl, tt)
fill_withdraws-cases active_id (w ∷ ws) =
    let b = or_active active_id w.max_bin_id in
    let a = or_active active_id w.min_bin_id in
    elim (Bool-cases (is_bps_invalid w.bps)) [
      | inl wrong ↦ inr (invalid_bps, rw wrong)
      | inr bps ↦ elim (Bool-cases (ltb_ℤ b a)) [
        | inl wrong ↦ inr (invalid_bin_range, rw (bps, wrong))
        | inr right ↦ elim (fill_withdraws-cases active_id ws) [
          | inl (run, all) ↦
              inl (rw (bps, right, run), (fill_withdraw-IsFilled active_id w bps right, all))
          | inr (e, run) ↦ inr (e, rw (bps, right, run))
        ]
      ]
    ]

fill_withdraws-filled :
    (active_id : ℤ) (ws : List RebalanceWithWithdraw)
    → All (IsFilled active_id) ws
    → fill_withdraws active_id ws ≡ ok ws
unfolding fill_withdraws
fill_withdraws-filled active_id [] _ = refl
fill_withdraws-filled active_id (w ∷ ws) (f, fs) =
    let b = or_active active_id w.max_bin_id in
    let a = or_active active_id w.min_bin_id in
    let right : ltb_ℤ b a ≡ false =
      le→ltb-false (pos_part b + neg_part a) (pos_part a + neg_part b) f.ordered in
    rw (f.bps_le, right, fill_withdraws-filled active_id ws fs)
      (ap (λ (v : RebalanceWithWithdraw). ok (v ∷ ws)) f.filled)

IsFilled-IsRange :
    (active_id : ℤ) (ws : List RebalanceWithWithdraw)
    → All (IsFilled active_id) ws
    → All (IsRange (first_bin active_id) (last_bin active_id)) ws
IsFilled-IsRange active_id [] _ = tt
IsFilled-IsRange active_id (w ∷ ws) (f, fs) = (f.ordered, IsFilled-IsRange active_id ws fs)

-- Filled ranges, in order and apart from one another: the ranges given, with a missing bound filled
-- by the active bin.
pub record IsSchedule (active_id : ℤ) (ws out : List RebalanceWithWithdraw) : Type 0 where
  pub same : Permᴰ (map (fill_withdraw active_id) ws) out
  pub filled : All (IsFilled active_id) out
  pub apart : AreApart (first_bin active_id) (last_bin active_id) out

pub check_overlap-true :
    {A : Type 0} (first last : A → ℤ) (xs : List A)
    → are_apart first last xs ≡ true
    → check_overlap first last xs ≡ ok xs
unfolding check_overlap
check_overlap-true first last xs h = rw h

validated :
    (active_id : ℤ) (ws out : List RebalanceWithWithdraw)
    → fill_withdraws active_id ws ≡ ok (map (fill_withdraw active_id) ws)
    → All (IsFilled active_id) (map (fill_withdraw active_id) ws)
    → validate_and_sort_rebalance_withdraw ws active_id ≡ ok out
    → IsSchedule active_id ws out × (validate_and_sort_rebalance_withdraw out active_id ≡ ok out)
unfolding validate_and_sort_rebalance_withdraw
validated active_id ws out run all h =
    let first = first_bin active_id in
    let last = last_bin active_id in
    let filled = map (fill_withdraw active_id) ws in
    let sorted = sort_by first filled in
    let (same, apart) = check_overlap-ok first last sorted out (rw run at h) in
    let good : All (IsFilled active_id) out =
      subst (All (IsFilled active_id)) same (sort_by-All first (IsFilled active_id) filled all) in
    let ranges = IsFilled-IsRange active_id out good in
    let test : are_apart first last out ≡ true =
      subst (λ xs. are_apart first last xs ≡ true) same apart in
    let out_apart = are_apart-AreApart first last out test ranges in
    let is : IsSchedule active_id ws out = record {
      same = subst (Permᴰ filled) same (sort_by-Perm first filled);
      filled = good;
      apart = out_apart;
    } in
    let again : sort_by first out ≡ out = sort_by-AreApart first last out ranges out_apart in
    (
      is,
      rw (fill_withdraws-filled active_id out good, again) (check_overlap-true first last out test),
    )

-- When the withdrawals pass, the result has the ranges that were given, each missing bound filled by
-- the active bin; they are sorted, each ends before the later ones begin, and their basis points are
-- at most all. Given as an input, the result passes unchanged.
pub validate_and_sort_rebalance_withdraw-IsSchedule :
    (ws out : List RebalanceWithWithdraw) (active_id : ℤ)
    → validate_and_sort_rebalance_withdraw ws active_id ≡ ok out
    → IsSchedule active_id ws out × (validate_and_sort_rebalance_withdraw out active_id ≡ ok out)
unfolding validate_and_sort_rebalance_withdraw
validate_and_sort_rebalance_withdraw-IsSchedule ws out active_id h =
    elim (fill_withdraws-cases active_id ws) [
      | inl (run, all) ↦ validated active_id ws out run all h
      | inr (e, run) ↦ grind (arith, rw run at h)
    ]
