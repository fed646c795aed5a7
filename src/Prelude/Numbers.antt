-- ===== src/Prelude/Numbers.antt =====
-- Powers of two, division by them, and the bits of a number.
use native.Mathlib.Nat.{
  pow-suc, pow-zero, add-zero, one-le-pow, div-div-eq-div-mul, mul-div-mul_right, mul_assoc,
  mul-one, add-suc, mul_comm, mul-div_cancel, mul-mod_left,
}
use dlmm_sdk.Prelude.{
  ℕ, zero, suc, ◌+◌, ◌-◌, ◌*◌, ◌/◌, ◌%◌, ◌^◌, ◌<◌, ◌≡◌, arith, Bool, false, ◌==◌,
}

pub two-pow-pos : (n : ℕ) → 0 < 2 ^ n
two-pow-pos n = one-le-pow n 2 (omega arith)

pub pow-add : (b m n : ℕ) → b ^ (m + n) ≡ b ^ m * b ^ n
pow-add b m zero = simp (add-zero, pow-zero, mul-one)
pow-add b m (suc n) = simp (add-suc, pow-suc, pow-add b m n, mul_assoc)

-- `BN.testn`: bit `i` of a number.
unfoldable pub testn : ℕ → ℕ → Bool
testn n i = (n / 2 ^ i) % 2 == 1

-- A right shift moves bit `k + i` to bit `i`.
pub testn-div : (n k i : ℕ) → testn (n / 2 ^ k) i ≡ testn n (k + i)
unfolding testn
testn-div n k i = rw (pow-add 2 k i, div-div-eq-div-mul)

-- A left shift moves bit `i` to bit `k + i`.
pub testn-mul : (n k i : ℕ) → testn (n * 2 ^ k) (k + i) ≡ testn n i
unfolding testn
testn-mul n k i =
    rw (pow-add 2 k i, mul_comm (2 ^ k) (2 ^ i), mul-div-mul_right n (2 ^ i) (two-pow-pos k))

testn-mul_below : (n i j : ℕ) → testn (n * 2 ^ (suc j + i)) i ≡ false
unfolding testn
testn-mul_below n i j =
    rw (pow-add 2 (suc j) i, ← mul_assoc n (2 ^ suc j) (2 ^ i))
      (rw (mul-div_cancel (n * 2 ^ suc j) (two-pow-pos i), pow-suc 2 j, ← mul_assoc n (2 ^ j) 2)
        (rw (mul-mod_left (n * 2 ^ j) 2)))

-- The bits below a left shift are clear.
pub testn-mul_low : (n k i : ℕ) → i < k → testn (n * 2 ^ k) i ≡ false
testn-mul_low n k i h =
    let e : suc (k - i - 1) + i ≡ k = omega arith in rw e at (testn-mul_below n i (k - i - 1))
