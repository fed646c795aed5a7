-- ===== src/BinArray/Bitmap/Words.antt =====
-- The bitmap that `buildBitmapFromU64Arrays` makes, bit by bit.
use native.Mathlib.Nat.{add-mul-div_left, mul_assoc, mul_comm, pow-suc, div-eq_of_lt}
use dlmm_sdk.Prelude.{
  ℕ, suc, ◌+◌, ◌-◌, ◌*◌, ◌/◌, ◌%◌, ◌^◌, ◌<◌, ◌≤◌, ◌≡◌, ap, arith, Bool, false, List, [], ◌∷◌, All,
  get_elem?, get_elem?-none, length, Bool-cases, inl, inr, ltb, ltb→lt, ltb-false→le, sym, ◌∙◌,
  Option, none, some,
}
use dlmm_sdk.Prelude.Numbers.{testn, testn-div, two-pow-pos, pow-add}
use dlmm_sdk.BinArray.Bitmap.{build_bitmap_from_u64_arrays}

-- No bit is set from the width of a number on.
pub testn-high : (n i : ℕ) → n < 2 ^ i → testn n i ≡ false
unfolding testn
testn-high n i h = rw (div-eq_of_lt h)

-- A multiple of a higher power of two does not change a bit.
testn-add_high : (w b i j : ℕ) → testn (w + 2 ^ (i + suc j) * b) i ≡ testn w i
unfolding testn
testn-add_high w b i j =
    let e : 2 ^ (i + suc j) * b ≡ 2 ^ i * (2 * (2 ^ j * b)) = rw (
      pow-add 2 i (suc j),
      pow-suc 2 j,
      mul_assoc (2 ^ i) (2 ^ j * 2) b,
      mul_comm (2 ^ j) 2,
      mul_assoc 2 (2 ^ j) b,
    ) in
    let d : (w + 2 ^ i * (2 * (2 ^ j * b))) / 2 ^ i ≡ w / 2 ^ i + 2 * (2 ^ j * b) =
      add-mul-div_left w (2 * (2 ^ j * b)) (two-pow-pos i) in
    let m : (w / 2 ^ i + 2 * (2 ^ j * b)) % 2 ≡ (w / 2 ^ i) % 2 = omega arith in rw (e, d, m)

-- The 64-bit words of an account.
abbrev pub AreWords : List ℕ → Type 0
AreWords = All (λ w. w < 2 ^ 64)

abbrev pub bit_in : Option ℕ → ℕ → Bool
bit_in none i = false
bit_in (some w) i = testn w i

-- Bit `n % 64` of word `n / 64`.
unfoldable pub word_bit : List ℕ → ℕ → Bool
word_bit words n = bit_in (get_elem? words (n / 64)) (n % 64)

testn-build_low :
    (w : ℕ) (ws : List ℕ) (n : ℕ)
    → n < 64
    → testn (build_bitmap_from_u64_arrays (w ∷ ws)) n ≡ testn w n
unfolding build_bitmap_from_u64_arrays
testn-build_low w ws n h =
    let e : n + suc (63 - n) ≡ 64 = omega arith in
    rw e at (testn-add_high w (build_bitmap_from_u64_arrays ws) n (63 - n))

testn-build_high :
    (w : ℕ) (ws : List ℕ) (n : ℕ)
    → w < 2 ^ 64
    → testn (build_bitmap_from_u64_arrays (w ∷ ws)) (64 + n)
      ≡ testn (build_bitmap_from_u64_arrays ws) n
unfolding build_bitmap_from_u64_arrays
testn-build_high w ws n h =
    let b = build_bitmap_from_u64_arrays ws in
    let e : (w + 2 ^ 64 * b) / 2 ^ 64 ≡ b = omega (arith, h) in
    rw (← testn-div (w + 2 ^ 64 * b) 64 n, e)

word_bit-low : (w : ℕ) (ws : List ℕ) (n : ℕ) → n < 64 → word_bit (w ∷ ws) n ≡ testn w n
unfolding word_bit
word_bit-low w ws n h =
    let q : n / 64 ≡ 0 = omega arith in
    let r : n % 64 ≡ n = omega arith in
    ap (λ k. bit_in (get_elem? (w ∷ ws) k) (n % 64)) q ∙ ap (λ k. bit_in (some w) k) r

word_bit-high : (w : ℕ) (ws : List ℕ) (n : ℕ) → word_bit (w ∷ ws) (64 + n) ≡ word_bit ws n
unfolding word_bit
word_bit-high w ws n =
    let q : (64 + n) / 64 ≡ suc (n / 64) = omega arith in
    let r : (64 + n) % 64 ≡ n % 64 = omega arith in
    ap (λ k. bit_in (get_elem? (w ∷ ws) k) ((64 + n) % 64)) q
    ∙ ap (λ k. bit_in (get_elem? ws (n / 64)) k) r

pub testn-build :
    (ws : List ℕ)
    → AreWords ws
    → (n : ℕ) → testn (build_bitmap_from_u64_arrays ws) n ≡ word_bit ws n
unfolding word_bit build_bitmap_from_u64_arrays
testn-build [] p n = testn-high 0 n (two-pow-pos n)
testn-build (w ∷ ws) (h, p) n = elim (Bool-cases (ltb n 64)) [
  | inl c ↦
      let below = ltb→lt n 64 c in testn-build_low w ws n below ∙ sym (word_bit-low w ws n below)
  | inr c ↦
      let e : 64 + (n - 64) ≡ n = omega (arith, ltb-false→le n 64 c) in
      rw (← e, testn-build_high w ws (n - 64) h, word_bit-high w ws (n - 64))
        (testn-build ws p (n - 64))
]

-- No bit is set beyond the words.
pub testn-build_beyond :
    (ws : List ℕ) (n : ℕ)
    → AreWords ws
    → 64 * length ws ≤ n
    → testn (build_bitmap_from_u64_arrays ws) n ≡ false
unfolding word_bit
testn-build_beyond ws n p h =
    testn-build ws p n ∙ ap (λ w. bit_in w (n % 64)) (get_elem?-none ws (n / 64) (omega (arith, h)))
