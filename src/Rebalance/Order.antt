-- ===== src/Rebalance/Order.antt =====
-- rebalancePosition.ts, `validateAndSortRebalanceWithdraw` and `validateAndSortRebalanceDeposit`. The
-- strings that they throw are the errors for basis points, ranges and overlaps.
pub mod Sorted
pub mod Schedules
pub mod Deposits
use dlmm_sdk.Prelude.{
  ℕ, Bool, true, false, not, ◌&&◌, ◌||◌, if◌then◌else◌, Option, some, List, [], ◌∷◌, Result, ok,
  err, ◌>>=◌, invalid_bps, invalid_bin_range, overlap_bin_range,
}
use dlmm_sdk.Prelude.Int.{ℤ, pos, ltb_ℤ, leb_ℤ}
use dlmm_sdk.Constants.{basis_point_max}
use dlmm_sdk.Rebalance.{RebalanceWithWithdraw, RebalanceWithDeposit, or_active}

-- `Array.prototype.sort` by an integer, which is stable.
module _ {A : Type 0} (key : A → ℤ) where
  unfoldable pub insert_by : A → List A → List A
  insert_by a [] = a ∷ []
  insert_by a (b ∷ bs) = if leb_ℤ (key a) (key b) then a ∷ b ∷ bs else b ∷ insert_by a bs

  unfoldable pub sort_by : List A → List A
  sort_by [] = []
  sort_by (a ∷ xs) = insert_by a (sort_by xs)

-- The loop over neighbours, which throws at the first one that does not begin after the one before.
module _ {A : Type 0} (first last : A → ℤ) where
  unfoldable pub are_apart_from : A → List A → Bool
  are_apart_from a [] = true
  are_apart_from a (b ∷ bs) = ltb_ℤ (last a) (first b) && are_apart_from b bs

  abbrev pub are_apart : List A → Bool
  are_apart [] = true
  are_apart (a ∷ xs) = are_apart_from a xs

abbrev pub fill_withdraw : ℤ → RebalanceWithWithdraw → RebalanceWithWithdraw
fill_withdraw active_id w = record {
  min_bin_id = some (or_active active_id w.min_bin_id);
  max_bin_id = some (or_active active_id w.max_bin_id);
  bps = w.bps;
}

abbrev pub is_bps_invalid : ℤ → Bool
is_bps_invalid bps = ltb_ℤ bps (pos 0) || ltb_ℤ (pos basis_point_max) bps

-- The loop that fills the bounds.
unfoldable pub fill_withdraws : ℤ → List RebalanceWithWithdraw → Result (List RebalanceWithWithdraw)
fill_withdraws active_id [] = ok []
fill_withdraws active_id (w ∷ withdraws) =
    let rest = fill_withdraws active_id withdraws in
    if is_bps_invalid w.bps
    then err invalid_bps
    else if ltb_ℤ (or_active active_id w.max_bin_id) (or_active active_id w.min_bin_id)
    then err invalid_bin_range
    else (rest >>= (λ filled. ok (fill_withdraw active_id w ∷ filled)))

-- The bounds of a filled range.
abbrev pub first_bin : ℤ → RebalanceWithWithdraw → ℤ
first_bin active_id w = or_active active_id w.min_bin_id

abbrev pub last_bin : ℤ → RebalanceWithWithdraw → ℤ
last_bin active_id w = or_active active_id w.max_bin_id

unfoldable pub check_overlap : {A : Type 0} → (first last : A → ℤ) → List A → Result (List A)
check_overlap first last sorted =
    if are_apart first last sorted then ok sorted else err overlap_bin_range

unfoldable pub validate_and_sort_rebalance_withdraw :
    List RebalanceWithWithdraw → ℤ → Result (List RebalanceWithWithdraw)
validate_and_sort_rebalance_withdraw withdraws active_id =
    fill_withdraws active_id withdraws >>= (λ filled.
      check_overlap (first_bin active_id) (last_bin active_id)
        (sort_by (first_bin active_id) filled))

unfoldable pub are_deposits_valid : List RebalanceWithDeposit → Bool
are_deposits_valid [] = true
are_deposits_valid (d ∷ deposits) =
    ltb_ℤ d.min_delta_id d.max_delta_id && are_deposits_valid deposits

-- The sort is in place, before the ranges are looked at.
unfoldable pub validate_and_sort_rebalance_deposit :
    List RebalanceWithDeposit → Result (List RebalanceWithDeposit)
validate_and_sort_rebalance_deposit deposits =
    let sorted = sort_by (λ d. d.min_delta_id) deposits in
    if are_deposits_valid sorted
    then check_overlap (λ d. d.min_delta_id) (λ d. d.max_delta_id) sorted
    else err invalid_bin_range
