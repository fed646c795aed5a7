-- ===== src/Examples/Tokens.antt =====
-- helpers/token_2022.ts at concrete numbers.
use dlmm_sdk.Prelude.{◌≡◌, refl, arith, some}
use dlmm_sdk.Token.{
  TransferFee, calculate_transfer_fee_included_amount, calculate_transfer_fee_excluded_amount,
}
use dlmm_sdk.Token.RoundTrip.{program_fee, excluded-included}

abbrev fee : TransferFee
fee = record { transfer_fee_basis_points = 150; maximum_fee = 5000 }

excluded-included_example :
    (calculate_transfer_fee_excluded_amount program_fee
      (some fee)
      (calculate_transfer_fee_included_amount program_fee (some fee) 123457).amount).amount
    ≡ 123457
excluded-included_example = excluded-included program_fee fee 123457 (λ f a. refl) (omega arith)
