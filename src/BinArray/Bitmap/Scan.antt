-- ===== src/BinArray/Bitmap/Scan.antt =====
-- The loops that look for a bit, from a place in one direction.
use mathlib.Core.Path.{subst}
use dlmm_sdk.Prelude.{
  ℕ, zero, suc, ◌+◌, ◌-◌, ◌≤◌, ◌<◌, ◌≡◌, refl, sym, ap, ◌∙◌, ◌⊎◌, inl, inr, arith, Bool, true,
  false, if◌then◌else◌, Option, none, some, Result, ok, ◌>>=◌, Bool-cases, ◌==◌, ==→eq,
}
use dlmm_sdk.Prelude.Int.{ℤ, pos, ◌+ℤ◌, ◌-ℤ◌, int_laws, +ℤ_zero}
use dlmm_sdk.Prelude.Numbers.{testn, two-pow-pos}
use dlmm_sdk.BinArray.Bitmap.Words.{testn-high}
use dlmm_sdk.Pair.{BinArrayBitmapExtension}
use dlmm_sdk.BinArray.Bitmap.{
  most_significant_loop, least_significant_loop, extension_bit, find_up, find_down,
  least_significant_bit, most_significant_bit,
}

-- The index at a distance from a start, downwards or upwards.
unfoldable pub ahead : Bool → ℤ → ℕ → ℤ
ahead down s n = if down then s -ℤ pos n else s +ℤ pos n

pub ahead_down : (s : ℤ) (n : ℕ) → ahead true s n ≡ s -ℤ pos n
unfolding ahead
ahead_down s n = refl

pub ahead_up : (s : ℤ) (n : ℕ) → ahead false s n ≡ s +ℤ pos n
unfolding ahead
ahead_up s n = refl

pub ahead_zero : (down : Bool) (s : ℤ) → ahead down s 0 ≡ s
unfolding ahead
ahead_zero true s = omega int_laws
ahead_zero false s = +ℤ_zero s

pub ahead_add :
    (down : Bool) (s : ℤ) (m n : ℕ) → ahead down (ahead down s m) n ≡ ahead down s (m + n)
unfolding ahead
ahead_add true s m n = omega int_laws
ahead_add false s m n = omega int_laws

Nat-cases : (m n : ℕ) → (m < n) ⊎ (n ≤ m)
Nat-cases m n = grind arith

-- No place nearer than a distance has the property.
unfoldable pub ClearBelow : (ℕ → Bool) → ℕ → Type 0
ClearBelow f d = (n : ℕ) → (d ≤ n) ⊎ (f n ≡ false)

pub ClearBelow-zero : (f : ℕ → Bool) → ClearBelow f 0
unfolding ClearBelow
ClearBelow-zero f n = inl (omega arith)

pub ClearBelow-suc : (f : ℕ → Bool) (d : ℕ) → ClearBelow f d → f d ≡ false → ClearBelow f (suc d)
unfolding ClearBelow
ClearBelow-suc f d below h n = elim (below n) [ inl le ↦ grind (arith, le, h) | inr e ↦ inr e ]

-- The first distance below a bound that has the property, if there is one.
unfoldable pub FirstBelow : (ℕ → Bool) → ℕ → Option ℕ → Type 0
FirstBelow f bound none = ClearBelow f bound
FirstBelow f bound (some d) = (d < bound) × (f d ≡ true) × ClearBelow f d

pub FirstBelow-ext :
    (f g : ℕ → Bool) (bound : ℕ) (r : Option ℕ)
    → ((n : ℕ) → n < bound → f n ≡ g n)
    → FirstBelow f bound r
    → FirstBelow g bound r
unfolding FirstBelow ClearBelow
FirstBelow-ext f g bound none e clear = λ n. elim (Nat-cases n bound) [
  | inl lt ↦ elim (clear n) [ inl le ↦ inl le | inr h ↦ inr (sym (e n lt) ∙ h) ]
  | inr le ↦ inl le
]
FirstBelow-ext f g bound (some d) e (lt, set, clear) = (
  lt,
  sym (e d lt) ∙ set,
  λ n. elim (Nat-cases n bound) [
    | inl below ↦ elim (clear n) [ inl le ↦ inl le | inr h ↦ inr (sym (e n below) ∙ h) ]
    | inr le ↦ inl (omega (arith, le, lt))
  ],
)

least_loop :
    (number rounds i bound : ℕ)
    → i + rounds ≡ bound
    → ClearBelow (testn number) i
    → FirstBelow (testn number) bound (least_significant_loop number rounds i)
unfolding least_significant_loop FirstBelow
least_loop number zero i bound e below =
    let e2 : i ≡ bound = omega (arith, e) in subst (ClearBelow (testn number)) e2 below
least_loop number (suc rounds) i bound e below = elim (Bool-cases (testn number i)) [
  | inl h ↦ rw h (omega (arith, e), h, below)
  | inr h ↦
      let next : i + 1 ≡ suc i = omega arith in
      let clear = subst (ClearBelow (testn number)) (sym next) (ClearBelow-suc _ i below h) in
      rw h (least_loop number rounds (i + 1) bound (omega (arith, e)) clear)
]

zero_testn : (number i : ℕ) → number == 0 ≡ true → testn number i ≡ false
zero_testn number i h = rw (==→eq number 0 h) (testn-high 0 i (two-pow-pos i))

-- The lowest set bit is found, for a number of that width.
pub least_significant_bit-FirstBelow :
    (number bits : ℕ) → FirstBelow (testn number) bits (least_significant_bit number bits)
unfolding least_significant_bit FirstBelow ClearBelow
least_significant_bit-FirstBelow number bits = elim (Bool-cases (number == 0)) [
  | inl h ↦ rw h (λ n. inr (zero_testn number n h))
  | inr h ↦ rw h (least_loop number bits 0 bits (omega arith) (ClearBelow-zero (testn number)))
]

most_loop :
    (number highest rounds i : ℕ)
    → i + rounds ≡ suc highest
    → ClearBelow (λ n. testn number (highest - n)) i
    → FirstBelow
        (λ n. testn number (highest - n))
        (suc highest)
        (most_significant_loop number highest rounds)
unfolding most_significant_loop FirstBelow
most_loop number highest zero i e below =
    let e2 : i ≡ suc highest = omega (arith, e) in
    subst (ClearBelow (λ n. testn number (highest - n))) e2 below
most_loop number highest (suc rounds) i e below =
    let here : highest - rounds ≡ i = omega (arith, e) in
    let back : highest - i ≡ rounds = omega (arith, e) in
    elim (Bool-cases (testn number rounds)) [
      | inl h ↦ rw (h, here) (omega (arith, e), rw (back, h), below)
      | inr h ↦ rw h (
          most_loop number highest rounds (suc i) (omega (arith, e))
            (ClearBelow-suc _ i below (rw (back, h))))
    ]

-- The highest set bit of a number is found, counted from the highest bit of that width.
pub most_significant_bit-FirstBelow :
    (number highest : ℕ)
    → FirstBelow
        (λ n. testn number (highest - n))
        (suc highest)
        (most_significant_bit number (suc highest))
unfolding most_significant_bit FirstBelow ClearBelow
most_significant_bit-FirstBelow number highest =
    let e : highest ≡ suc highest - 1 = omega arith in
    let found =
      subst
        (λ top.
          FirstBelow (λ n. testn number (highest - n)) (suc highest)
            (most_significant_loop number top (suc highest)))
        e (most_loop number highest (suc highest) 0 (omega arith) (ClearBelow-zero _)) in
    elim (Bool-cases (number == 0)) [
      | inl h ↦ rw h (λ n. inr (zero_testn number (highest - n) h))
      | inr h ↦ rw h found
    ]

-- Both loops of `findSetBit`, in the direction of the search.
unfoldable pub find_along : Bool → BinArrayBitmapExtension → ℕ → ℤ → Result (Option ℤ)
find_along down extension rounds i =
    if down then find_down extension rounds i else find_up extension rounds i

-- A single round has no direction.
pub find_along_once :
    (down : Bool) (extension : BinArrayBitmapExtension) (i : ℤ)
    → find_along down extension 1 i ≡ find_up extension 1 i
unfolding find_along find_up find_down
find_along_once true extension i = refl
find_along_once false extension i = refl

find_along_step :
    (down : Bool) (extension : BinArrayBitmapExtension) (rounds : ℕ) (i : ℤ)
    → find_along down extension (suc rounds) i ≡ (do
      found ← extension_bit extension i
      if found then ok (some i) else find_along down extension rounds (ahead down i 1))
unfolding find_along find_up find_down ahead
find_along_step true extension rounds i = refl
find_along_step false extension rounds i = refl

abbrev pub index_at : Bool → ℤ → Option ℕ → Option ℤ
index_at down s none = none
index_at down s (some d) = some (ahead down s d)

-- Where every bit can be read, the loop finds the first that is set.
pub find_along-FirstBelow :
    (down : Bool) (extension : BinArrayBitmapExtension) (f : ℕ → Bool) (s : ℤ) (rounds i bound : ℕ)
    → i + rounds ≡ bound
    → ((n : ℕ) → n < bound → extension_bit extension (ahead down s n) ≡ ok (f n))
    → ClearBelow f i
    → (r : Option ℕ) × (find_along down extension rounds (ahead down s i) ≡ ok (index_at down s r))
      × FirstBelow f bound r
unfolding FirstBelow find_along find_up find_down
find_along-FirstBelow true extension f s zero i bound e read below =
    let e2 : i ≡ bound = omega (arith, e) in (none, refl, subst (ClearBelow f) e2 below)
find_along-FirstBelow false extension f s zero i bound e read below =
    let e2 : i ≡ bound = omega (arith, e) in (none, refl, subst (ClearBelow f) e2 below)
find_along-FirstBelow down extension f s (suc rounds) i bound e read below =
    let step = find_along_step down extension rounds (ahead down s i) in
    let bit = read i (omega (arith, e)) in
    elim (Bool-cases (f i)) [
      | inl h ↦ (some i, rw (step, bit, h), (omega (arith, e), h, below))
      | inr h ↦
          let (r, run, first) =
            find_along-FirstBelow down extension f s rounds (suc i) bound (omega (arith, e)) read
              (ClearBelow-suc f i below h) in
          let on : ahead down (ahead down s i) 1 ≡ ahead down s (suc i) =
            ahead_add down s i 1 ∙ ap (ahead down s) (omega arith) in
          (r, rw (step, bit, h, on) run, first)
    ]
