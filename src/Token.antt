-- ===== src/Token.antt =====
-- ts-client/src/dlmm/helpers/token_2022.ts: amounts with and without the transfer fee of a mint. The
-- fee itself is computed by the package of the token program, and is a parameter here, as is the fee
-- of a mint at an epoch (`getTransferFeeConfig` and `getEpochFee`).
pub mod RoundTrip
use dlmm_sdk.Prelude.{ℕ, ◌+◌, ◌-◌, ◌*◌, ◌/◌, ◌==◌, leb, if◌then◌else◌, Option, none, some}

-- The maximum is in units of the token; the basis points are at most 10000.
pub record TransferFee : Type 0 where
  pub transfer_fee_basis_points : ℕ
  pub maximum_fee : ℕ

abbrev pub max_fee_basis_points : ℕ
max_fee_basis_points = 10000

unfoldable pub calculate_pre_fee_amount : TransferFee → ℕ → ℕ
calculate_pre_fee_amount transfer_fee post_fee_amount =
    let numerator = post_fee_amount * max_fee_basis_points in
    let denominator = max_fee_basis_points - transfer_fee.transfer_fee_basis_points in
    let raw_pre_fee_amount = (numerator + denominator - 1) / denominator in
    if post_fee_amount == 0
    then 0
    else if transfer_fee.transfer_fee_basis_points == 0
    then post_fee_amount
    else if transfer_fee.transfer_fee_basis_points == max_fee_basis_points
    then post_fee_amount + transfer_fee.maximum_fee
    else if leb transfer_fee.maximum_fee (raw_pre_fee_amount - post_fee_amount)
    then post_fee_amount + transfer_fee.maximum_fee
    else raw_pre_fee_amount

pub record TransferFeeAmount : Type 0 where
  pub amount : ℕ
  pub transfer_fee : ℕ

module _ (calculate_fee : TransferFee → ℕ → ℕ) where
  unfoldable pub calculate_inverse_fee : TransferFee → ℕ → ℕ
  calculate_inverse_fee transfer_fee post_fee_amount =
      calculate_fee transfer_fee (calculate_pre_fee_amount transfer_fee post_fee_amount)

  -- `none` is a mint without a transfer fee.
  unfoldable pub calculate_transfer_fee_included_amount : Option TransferFee → ℕ → TransferFeeAmount
  calculate_transfer_fee_included_amount none transfer_fee_excluded_amount = record {
    amount = transfer_fee_excluded_amount;
    transfer_fee = 0;
  }
  calculate_transfer_fee_included_amount (some epoch_fee) transfer_fee_excluded_amount =
      let transfer_fee =
        if epoch_fee.transfer_fee_basis_points == max_fee_basis_points
        then epoch_fee.maximum_fee
        else calculate_inverse_fee epoch_fee transfer_fee_excluded_amount in
      if transfer_fee_excluded_amount == 0
      then record { amount = 0; transfer_fee = 0 }
      else record {
        amount = transfer_fee_excluded_amount + transfer_fee;
        transfer_fee = transfer_fee;
      }

  -- The fee is at most the amount, so that the subtraction does not stop at 0.
  unfoldable pub calculate_transfer_fee_excluded_amount : Option TransferFee → ℕ → TransferFeeAmount
  calculate_transfer_fee_excluded_amount none transfer_fee_included_amount = record {
    amount = transfer_fee_included_amount;
    transfer_fee = 0;
  }
  calculate_transfer_fee_excluded_amount (some epoch_fee) transfer_fee_included_amount =
      let transfer_fee = calculate_fee epoch_fee transfer_fee_included_amount in
      record { amount = transfer_fee_included_amount - transfer_fee; transfer_fee = transfer_fee }
