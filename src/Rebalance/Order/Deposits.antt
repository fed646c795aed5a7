-- ===== src/Rebalance/Order/Deposits.antt =====
-- rebalancePosition.ts, what `validateAndSortRebalanceDeposit` returns.
use mathlib.Core.Path.{subst}
use mathlib.Core.List.{Permᴰ}
use dlmm_sdk.Prelude.{◌≡◌, arith, inl, inr, true, List, [], ◌∷◌, All, ok, Bool-cases, &&_true}
use dlmm_sdk.Prelude.Int.{ℤ, ltb_ℤ, ltb_ℤ→lt, ◌<ℤ◌}
use dlmm_sdk.Rebalance.{RebalanceWithDeposit}
use dlmm_sdk.Rebalance.Order.{
  sort_by, are_apart, are_deposits_valid, validate_and_sort_rebalance_deposit,
}
use dlmm_sdk.Rebalance.Order.Sorted.{
  sort_by-Perm, AreApart, IsRange, are_apart-AreApart, sort_by-AreApart,
}
use dlmm_sdk.Rebalance.Order.Schedules.{check_overlap-ok, check_overlap-true}

abbrev pub first_delta : RebalanceWithDeposit → ℤ
first_delta d = d.min_delta_id

abbrev pub last_delta : RebalanceWithDeposit → ℤ
last_delta d = d.max_delta_id

-- The deposits given, in order and apart from one another, each over two bins at least.
pub record IsDepositSchedule (deposits out : List RebalanceWithDeposit) : Type 0 where
  pub same : Permᴰ deposits out
  pub wide : All (λ d. d.min_delta_id <ℤ d.max_delta_id) out
  pub apart : AreApart first_delta last_delta out

are_deposits_valid-All :
    (ds : List RebalanceWithDeposit)
    → are_deposits_valid ds ≡ true
    → All (λ d. d.min_delta_id <ℤ d.max_delta_id) ds
unfolding are_deposits_valid
are_deposits_valid-All [] h = tt
are_deposits_valid-All (d ∷ ds) h =
    let both = &&_true (ltb_ℤ d.min_delta_id d.max_delta_id) (are_deposits_valid ds) h in
    (ltb_ℤ→lt d.min_delta_id d.max_delta_id both.0, are_deposits_valid-All ds both.1)

All-IsRange :
    (ds : List RebalanceWithDeposit)
    → All (λ d. d.min_delta_id <ℤ d.max_delta_id) ds
    → All (IsRange first_delta last_delta) ds
All-IsRange [] _ = tt
All-IsRange (d ∷ ds) (w, ws) = (omega (arith, w), All-IsRange ds ws)

-- When the deposits pass, the result has the deposits that were given; they are sorted, each ends
-- before the later ones begin, and each covers two bins at least. Given as an input, the result passes
-- unchanged.
pub validate_and_sort_rebalance_deposit-IsDepositSchedule :
    (deposits out : List RebalanceWithDeposit)
    → validate_and_sort_rebalance_deposit deposits ≡ ok out
    → IsDepositSchedule deposits out × (validate_and_sort_rebalance_deposit out ≡ ok out)
unfolding validate_and_sort_rebalance_deposit
validate_and_sort_rebalance_deposit-IsDepositSchedule deposits out h =
    let sorted = sort_by first_delta deposits in
    elim (Bool-cases (are_deposits_valid sorted)) [
      | inl valid ↦
          let (same, apart) = check_overlap-ok first_delta last_delta sorted out (rw valid at h) in
          let right : are_deposits_valid out ≡ true =
            subst (λ xs. are_deposits_valid xs ≡ true) same valid in
          let test : are_apart first_delta last_delta out ≡ true =
            subst (λ xs. are_apart first_delta last_delta xs ≡ true) same apart in
          let wide = are_deposits_valid-All out right in
          let ranges = All-IsRange out wide in
          let out_apart = are_apart-AreApart first_delta last_delta out test ranges in
          let again : sort_by first_delta out ≡ out =
            sort_by-AreApart first_delta last_delta out ranges out_apart in
          (
            record {
              same = subst (Permᴰ deposits) same (sort_by-Perm first_delta deposits);
              wide = wide;
              apart = out_apart;
            },
            rw (again, right) (check_overlap-true first_delta last_delta out test),
          )
      | inr wrong ↦ grind (arith, rw wrong at h)
    ]
