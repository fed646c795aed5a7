-- ===== src/Prelude/Int.antt =====
-- Signed integers over the native numbers, under the library's names, with the operations of BN that
-- the code uses. `div` and `mod` of BN round towards zero: they are `tdiv` and `tmod`.
use dlmm_sdk.Prelude.{
  ℕ, zero, suc, ◌+◌, ◌-◌, ◌*◌, ◌/◌, ◌%◌, ◌≤◌, ◌<◌, ◌≡◌, refl, ◌⊎◌, Bool, true, false, arith, ltb,
  leb, ◌==◌, if◌then◌else◌, ap, Bool-cases, inl, inr, leb→le, leb-false→lt,
}

-- `negsuc n` is -(n + 1).
pub data ℤ : Type 0 where
  pos : ℕ → ℤ
  negsuc : ℕ → ℤ

abbrev pub pos_part : ℤ → ℕ
pos_part (pos n) = n
pos_part (negsuc n) = 0

abbrev pub neg_part : ℤ → ℕ
neg_part (pos n) = 0
neg_part (negsuc n) = suc n

-- a - b, as an integer.
abbrev pub sub_ℕ : ℕ → ℕ → ℤ
sub_ℕ a b = if leb b a then pos (a - b) else negsuc (b - a - 1)

infixl 65 ◌+ℤ◌ ◌-ℤ◌
infixl 70 ◌*ℤ◌
infix 50 ◌≤ℤ◌ ◌<ℤ◌
unfoldable pub ◌+ℤ◌ : ℤ → ℤ → ℤ
a +ℤ b = sub_ℕ (pos_part a + pos_part b) (neg_part a + neg_part b)

unfoldable pub ◌-ℤ◌ : ℤ → ℤ → ℤ
a -ℤ b = sub_ℕ (pos_part a + neg_part b) (neg_part a + pos_part b)

unfoldable pub neg_ℤ : ℤ → ℤ
neg_ℤ a = sub_ℕ (neg_part a) (pos_part a)

unfoldable pub ◌*ℤ◌ : ℤ → ℤ → ℤ
a *ℤ b =
    sub_ℕ (pos_part a * pos_part b + neg_part a * neg_part b)
      (pos_part a * neg_part b + neg_part a * pos_part b)

-- The absolute value.
abbrev pub nat_abs : ℤ → ℕ
nat_abs (pos n) = n
nat_abs (negsuc n) = suc n

-- Division by a positive number, rounded towards zero, and its remainder with the dividend's sign.
unfoldable pub tdiv : ℤ → ℕ → ℤ
tdiv (pos n) d = pos (n / d)
tdiv (negsuc n) d = sub_ℕ 0 (suc n / d)

unfoldable pub tmod : ℤ → ℕ → ℤ
tmod (pos n) d = pos (n % d)
tmod (negsuc n) d = sub_ℕ 0 (suc n % d)

abbrev pub ◌≤ℤ◌ : ℤ → ℤ → Type 0
a ≤ℤ b = pos_part a + neg_part b ≤ pos_part b + neg_part a

abbrev pub ◌<ℤ◌ : ℤ → ℤ → Type 0
a <ℤ b = pos_part a + neg_part b < pos_part b + neg_part a

abbrev pub ltb_ℤ : ℤ → ℤ → Bool
ltb_ℤ a b = ltb (pos_part a + neg_part b) (pos_part b + neg_part a)

abbrev pub leb_ℤ : ℤ → ℤ → Bool
leb_ℤ a b = leb (pos_part a + neg_part b) (pos_part b + neg_part a)

abbrev pub eqb_ℤ : ℤ → ℤ → Bool
eqb_ℤ a b = pos_part a + neg_part b == pos_part b + neg_part a

abbrev pub is_neg : ℤ → Bool
is_neg (pos n) = false
is_neg (negsuc n) = true

abbrev pub is_zero_ℤ : ℤ → Bool
is_zero_ℤ (pos n) = n == 0
is_zero_ℤ (negsuc n) = false

-- One lemma for each operation lets `omega` work with the operations shut, at any depth.
pub +ℤ_parts :
    (a b : ℤ)
    → pos_part (a +ℤ b) + neg_part a + neg_part b ≡ neg_part (a +ℤ b) + pos_part a + pos_part b
unfolding ◌+ℤ◌
+ℤ_parts a b = ground arith

pub -ℤ_parts :
    (a b : ℤ)
    → pos_part (a -ℤ b) + neg_part a + pos_part b ≡ neg_part (a -ℤ b) + pos_part a + neg_part b
unfolding ◌-ℤ◌
-ℤ_parts a b = ground arith

pub neg_ℤ_parts : (a : ℤ) → pos_part (neg_ℤ a) + pos_part a ≡ neg_part (neg_ℤ a) + neg_part a
unfolding neg_ℤ
neg_ℤ_parts a = ground arith

pub *ℤ_parts :
    (a b : ℤ)
    → pos_part (a *ℤ b) + (pos_part a * neg_part b + neg_part a * pos_part b)
      ≡ neg_part (a *ℤ b) + (pos_part a * pos_part b + neg_part a * neg_part b)
unfolding ◌*ℤ◌
*ℤ_parts a b = ground arith

-- An integer has one part that is zero.
pub parts_exclusive : (a : ℤ) → (pos_part a ≡ 0) ⊎ (neg_part a ≡ 0)
parts_exclusive a = ground arith

pub eq_of_parts : (a b : ℤ) → pos_part a + neg_part b ≡ pos_part b + neg_part a → a ≡ b
eq_of_parts a b h = ground arith

pub parts_of_eq : (a b : ℤ) → a ≡ b → pos_part a + neg_part b ≡ pos_part b + neg_part a
parts_of_eq a b h = ground arith

pub ruleset int_laws = (arith, +ℤ_parts, -ℤ_parts, neg_ℤ_parts, eq_of_parts)

pub ltb_ℤ→lt : (a b : ℤ) → ltb_ℤ a b ≡ true → a <ℤ b
ltb_ℤ→lt a b h = ground arith

pub pos_mul : (a b : ℕ) → pos a *ℤ pos b ≡ pos (a * b)
unfolding ◌*ℤ◌
pos_mul a b = ground arith

pub +ℤ_zero : (a : ℤ) → a +ℤ pos 0 ≡ a
+ℤ_zero a = omega int_laws

pub +ℤ_assoc : (a b c : ℤ) → a +ℤ b +ℤ c ≡ a +ℤ (b +ℤ c)
+ℤ_assoc a b c = omega int_laws

-- Division towards zero and its remainder recompose the dividend.
pub tdiv-tmod :
    (a : ℤ) (d : ℕ)
    → pos_part a + d * neg_part (tdiv a d) + neg_part (tmod a d)
      ≡ neg_part a + d * pos_part (tdiv a d) + pos_part (tmod a d)
unfolding tdiv tmod
tdiv-tmod (pos n) d = grind arith
tdiv-tmod (negsuc n) d = grind arith

unfoldable pub min_ℤ : ℤ → ℤ → ℤ
min_ℤ a b = if leb_ℤ a b then a else b

pub min_ℤ-cases : (a b : ℤ) → ((min_ℤ a b ≡ a) × (a ≤ℤ b)) ⊎ ((min_ℤ a b ≡ b) × (b <ℤ a))
unfolding min_ℤ
min_ℤ-cases a b = elim (Bool-cases (leb_ℤ a b)) [
  | inl h ↦ inl (rw h, leb→le (pos_part a + neg_part b) (pos_part b + neg_part a) h)
  | inr h ↦ inr (rw h, leb-false→lt (pos_part a + neg_part b) (pos_part b + neg_part a) h)
]
