-- ===== src/Token/RoundTrip.antt =====
-- token_2022.ts: the amounts with and without the transfer fee, against one another.
use native.Mathlib.Nat.{div-add-mod', mul-le-mul, le_refl}
use dlmm_sdk.Prelude.{
  ℕ, ◌+◌, ◌-◌, ◌*◌, ◌/◌, ◌≤◌, ◌<◌, ◌≡◌, ◌∙◌, ap, arith, min, false, ◌==◌, leb, Bool-cases, inl, inr,
  some, ==→eq, leb→le, leb-false→lt,
}
use dlmm_sdk.Token.{
  TransferFee, max_fee_basis_points, calculate_pre_fee_amount, calculate_inverse_fee,
  calculate_transfer_fee_included_amount, calculate_transfer_fee_excluded_amount,
}

-- The fee of the token program: the share in basis points, rounded up, up to the maximum.
abbrev pub program_fee : TransferFee → ℕ → ℕ
program_fee fee amount =
    min ((amount * fee.transfer_fee_basis_points + 9999) / 10000) fee.maximum_fee

-- A quotient rounded up is the least number that reaches the dividend.
ceil_lower : (n d : ℕ) → 0 < d → n ≤ (n + d - 1) / d * d
ceil_lower n d h = grind (arith, div-add-mod' (n + d - 1) d)

ceil_upper : (n d : ℕ) → 0 < d → (n + d - 1) / d * d < n + d
ceil_upper n d h = grind (arith, div-add-mod' (n + d - 1) d)

distribute : (n b c : ℕ) → n * b + n * c ≡ n * (b + c)
distribute n b c = grind arith

split_points : (n b : ℕ) → b ≤ 10000 → n * b + n * (10000 - b) ≡ n * 10000
split_points n b h =
    let whole : b + (10000 - b) ≡ 10000 = omega (arith, h) in
    distribute n b (10000 - b) ∙ ap (λ (t : ℕ). n * t) whole

-- Without the maximum, the share of the raw amount is what it has over the amount.
raw_share :
    (x b : ℕ)
    → b < 10000
    → let raw = (x * 10000 + (10000 - b) - 1) / (10000 - b) in (raw * b + 9999) / 10000 + x ≡ raw
raw_share x b h =
    let c = 10000 - b in
    let raw = (x * 10000 + c - 1) / c in
    let lo : x * 10000 ≤ raw * c = ceil_lower (x * 10000) c (omega (arith, h)) in
    let hi : raw * c < x * 10000 + c = ceil_upper (x * 10000) c (omega (arith, h)) in
    let sp : raw * b + raw * c ≡ raw * 10000 = split_points raw b (omega (arith, h)) in
    omega (arith, lo, hi, sp)

-- Below the raw amount, the share is more than what is over the amount.
less_share :
    (x n b : ℕ)
    → b < 10000
    → x ≤ n
    → n ≤ (x * 10000 + (10000 - b) - 1) / (10000 - b)
    → n - x ≤ (n * b + 9999) / 10000
less_share x n b h le below =
    let c = 10000 - b in
    let raw = (x * 10000 + c - 1) / c in
    let hi : raw * c < x * 10000 + c = ceil_upper (x * 10000) c (omega (arith, h)) in
    let sp : n * b + n * c ≡ n * 10000 = split_points n b (omega (arith, h)) in
    let mono : n * c ≤ raw * c = mul-le-mul below (le_refl c) in omega (arith, hi, sp, mono, h)

-- The fee of what `calculatePreFeeAmount` computes is what it adds.
program_fee-calculate_pre_fee_amount :
    (fee : TransferFee) (x : ℕ)
    → fee.transfer_fee_basis_points < 10000
    → 0 < x
    → program_fee fee (calculate_pre_fee_amount fee x) + x ≡ calculate_pre_fee_amount fee x
unfolding calculate_pre_fee_amount
program_fee-calculate_pre_fee_amount fee x h positive =
    let b = fee.transfer_fee_basis_points in
    let most = fee.maximum_fee in
    let raw = (x * 10000 + (10000 - b) - 1) / (10000 - b) in
    let share : (raw * b + 9999) / 10000 + x ≡ raw = raw_share x b h in
    let full : b == 10000 ≡ false = ground arith in
    let some_x : x == 0 ≡ false = ground arith in
    elim (Bool-cases (b == 0)) [
      | inl none_b ↦
          let no_share : x * b ≡ 0 = ap (λ (t : ℕ). x * t) (==→eq b 0 none_b) ∙ omega arith in
          rw (some_x, none_b) (omega (arith, no_share))
      | inr some_b ↦ elim (Bool-cases (leb most (raw - x))) [
        | inl capped ↦
            let less =
              less_share x (x + most) b h (omega arith)
                (omega (arith, leb→le most (raw - x) capped, share)) in
            rw (some_x, some_b, full, capped) (omega (arith, less))
        | inr uncapped ↦
            rw (some_x, some_b, full, uncapped)
              (omega (arith, share, leb-false→lt most (raw - x) uncapped))
      ]
    ]

-- With the fee of the token program, and basis points of at most all, an amount that is sent with its
-- transfer fee arrives as the amount, whatever the mint's fee and maximum.
pub excluded-included :
    (calculate_fee : TransferFee → ℕ → ℕ) (fee : TransferFee) (x : ℕ)
    → ((f : TransferFee) (a : ℕ) → calculate_fee f a ≡ program_fee f a)
    → fee.transfer_fee_basis_points ≤ max_fee_basis_points
    → (calculate_transfer_fee_excluded_amount calculate_fee
        (some fee)
        (calculate_transfer_fee_included_amount calculate_fee (some fee) x).amount).amount
      ≡ x
unfolding calculate_transfer_fee_excluded_amount calculate_transfer_fee_included_amount
    calculate_inverse_fee
excluded-included calculate_fee fee x program most =
    let b = fee.transfer_fee_basis_points in
    elim (Bool-cases (x == 0)) [
      | inl none_x ↦ let e : x ≡ 0 = ==→eq x 0 none_x in rw (none_x, program) (omega (arith, e))
      | inr some_x ↦
          let positive : 0 < x = ground arith in
          elim (Bool-cases (b == 10000)) [
            | inl all ↦
                let e : b ≡ 10000 = ==→eq b 10000 all in
                let whole : (x + fee.maximum_fee) * b ≡ (x + fee.maximum_fee) * 10000 =
                  ap (λ (t : ℕ). (x + fee.maximum_fee) * t) e in
                rw (some_x, all, program) (omega (arith, whole))
            | inr part ↦
                let below : b < 10000 = ground arith in
                let pre = calculate_pre_fee_amount fee x in
                let added : program_fee fee pre + x ≡ pre =
                  program_fee-calculate_pre_fee_amount fee x below positive in
                let sent : x + program_fee fee pre ≡ pre = omega (arith, added) in
                rw (some_x, part, program, sent, program) (omega (arith, added))
          ]
    ]
