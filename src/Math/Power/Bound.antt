-- ===== src/Math/Power/Bound.antt =====
-- u64xu64_math.ts, `pow`: the rounding of its steps.
use native.Mathlib.Nat.{
  mul-le-mul, le_refl, pow-suc, pow-zero, pow-le-pow_left, div-add-mod', div-eq_of_lt,
  div-div-eq-div-mul, mul-one, mul_assoc,
}
use native.Mathlib.Numerals.{add-one}
use dlmm_sdk.Prelude.{
  ℕ, zero, suc, ◌+◌, ◌*◌, ◌/◌, ◌%◌, ◌^◌, ◌≤◌, ◌<◌, ◌≡◌, arith, sym, ◌∙◌, false, if◌then◌else◌,
  Bool-cases, inl, inr, ◌==◌, ==→eq, ltb, leb,
}
use dlmm_sdk.Prelude.Numbers.{testn, pow-add}
use dlmm_sdk.Prelude.Int.{pos}
use dlmm_sdk.Math.{one}
use dlmm_sdk.Math.Power.{pow_steps, pow, finish}

swap_middle : (a b c d : ℕ) → a * b * (c * d) ≡ a * c * (b * d)
swap_middle a b c d = grind arith

reorder : (p a b : ℕ) → p * (a * (b * b)) ≡ p * b * (b * a)
reorder p a b = grind arith

regroup : (r s o b : ℕ) → r * s * (o * b) ≡ r * b * (s * o)
regroup r s o b = grind arith

mul-pow : (a b m : ℕ) → (a * b) ^ m ≡ a ^ m * b ^ m
mul-pow a b zero = simp (pow-zero, mul-one)
mul-pow a b (suc m) =
    rw (pow-suc (a * b) m, pow-suc a m, pow-suc b m, mul-pow a b m)
      (swap_middle (a ^ m) (b ^ m) a b)

-- The number of the bits that are left, read from the lowest.
bits_left : (rounds bit exp : ℕ) → ℕ
bits_left zero bit exp = 0
bits_left (suc rounds) bit exp =
    (if testn exp bit then 1 else 0)
    + (bits_left rounds (bit + 1) exp + bits_left rounds (bit + 1) exp)

bits_left_lem :
    (rounds bit exp : ℕ) → exp < 2 ^ (bit + rounds) → bits_left rounds bit exp ≡ exp / 2 ^ bit
unfolding bits_left testn
bits_left_lem zero bit exp h = let e : bit + 0 ≡ bit = omega arith in sym (div-eq_of_lt (rw e at h))
bits_left_lem (suc rounds) bit exp h =
    let e : bit + suc rounds ≡ bit + 1 + rounds = omega arith in
    let rest = bits_left_lem rounds (bit + 1) exp (rw e at h) in
    let half : exp / 2 ^ (bit + 1) ≡ exp / 2 ^ bit / 2 =
      rw (add-one, pow-suc 2 bit, div-div-eq-div-mul) in
    elim (Bool-cases (exp / 2 ^ bit % 2 == 1)) [
      | inl odd ↦ rw odd (omega (arith, rest, half, ==→eq (exp / 2 ^ bit % 2) 1 odd))
      | inr even ↦ rw even (ground (arith, rest, half))
    ]

scaled_down : (n d : ℕ) → n / d * d ≤ n
scaled_down n d = omega (arith, div-add-mod' n d)

pow_once : (a : ℕ) → a ^ 1 ≡ a
pow_once a = pow-suc a 0 ∙ rw (pow-zero a) (omega arith)

pow_twice : (a n : ℕ) → a ^ (n + n) ≡ (a * a) ^ n
pow_twice a n = pow-add a n n ∙ sym (mul-pow a a n)

-- One step, with a bit that is set or not.
step_le :
    (p res res' sq sq' o m b : ℕ)
    → p * o ^ m ≤ res' * sq' ^ m
    → sq' * o ≤ sq * sq
    → res' * o ^ b ≤ res * sq ^ b
    → p * o ^ (b + (m + m)) ≤ res * sq ^ (b + (m + m))
step_le p res res' sq sq' o m b ih square times =
    let left : p * o ^ (b + (m + m)) ≡ p * o ^ m * (o ^ m * o ^ b) =
      rw (pow-add o b (m + m), pow-add o m m) (reorder p (o ^ b) (o ^ m)) in
    let one_step : p * o ^ m * (o ^ m * o ^ b) ≤ res' * sq' ^ m * (o ^ m * o ^ b) =
      mul-le-mul ih (le_refl (o ^ m * o ^ b)) in
    let middle : res' * sq' ^ m * (o ^ m * o ^ b) ≡ res' * o ^ b * (sq' * o) ^ m =
      rw (mul-pow sq' o m) (regroup res' (sq' ^ m) (o ^ m) (o ^ b)) in
    let last : res' * o ^ b * (sq' * o) ^ m ≤ res * sq ^ b * (sq * sq) ^ m =
      mul-le-mul times (pow-le-pow_left square m) in
    let right : res * sq ^ (b + (m + m)) ≡ res * sq ^ b * (sq * sq) ^ m =
      rw (pow-add sq b (m + m), pow_twice sq m) (sym (mul_assoc res (sq ^ b) ((sq * sq) ^ m))) in
    omega (arith, left, one_step, middle, last, right)

pow_steps_le :
    (rounds bit exp sq res : ℕ)
    → pow_steps rounds bit exp sq res * (2 ^ 64) ^ bits_left rounds bit exp
      ≤ res * sq ^ bits_left rounds bit exp
unfolding pow_steps bits_left
pow_steps_le zero bit exp sq res = rw (pow-zero sq) (omega arith)
pow_steps_le (suc rounds) bit exp sq res =
    let o = 2 ^ 64 in
    let n = bits_left rounds (bit + 1) exp in
    elim (Bool-cases (testn exp bit)) [
      | inl set ↦
          let res' = res * sq / o in
          rw set (
            step_le _ res res' sq (sq * sq / o) o n 1
              (pow_steps_le rounds (bit + 1) exp (sq * sq / o) res') (scaled_down (sq * sq) o)
              (rw (pow_once sq) (scaled_down (res * sq) o)))
      | inr clear ↦ rw clear (
          step_le _ res res sq (sq * sq / o) o n 0
            (pow_steps_le rounds (bit + 1) exp (sq * sq / o) res) (scaled_down (sq * sq) o)
            (rw (pow-zero sq) (le_refl (res * 1))))
    ]

-- A power of a base below one, with a positive exponent below 2 ^ 19, is at most the exact power.
pub pow-le : (base n : ℕ) → base < one → n < 524288 → pow base (pos n) * one ^ n ≤ one * base ^ n
unfolding pow finish
pow-le base n below small =
    let all : bits_left 19 0 n ≡ n = bits_left_lem 19 0 n (omega (arith, small)) ∙ omega arith in
    let bound = pow_steps_le 19 0 n base one in
    let steps : pow_steps 19 0 n base one * one ^ n ≤ one * base ^ n = rw all at bound in
    elim (Bool-cases (n == 0)) [
      | inl none_n ↦ let e = ==→eq n 0 none_n in rw none_n (rw (e, pow-zero base) (omega arith))
      | inr some_n ↦
          let within : ltb 524288 n ≡ false = ground arith in
          let low : leb one base ≡ false = ground arith in
          elim (Bool-cases (pow_steps 19 0 n base one == 0)) [
            | inl nothing ↦ rw (some_n, within, low, nothing) (omega arith)
            | inr something ↦ rw (some_n, within, low, something) steps
          ]
    ]
