-- ===== src/Prelude/Lists.antt =====
-- Lists measured and indexed by native numbers, under the library's names.
use Prim.Native.Nat.{ℕ, zero, suc, ◌+◌, ◌≤◌, ◌<◌}
use mathlib.Core.Path.{◌≡◌, refl, ap}
use mathlib.Core.List.{List, [], ◌∷◌, ◌++◌, map}
use mathlib.Core.Option.{Option, none, some}
use native.Mathlib.Omega.{arith}

module _ {ℓ} {A : Type ℓ} where
  abbrev pub length : List A → ℕ
  length [] = 0
  length (x ∷ xs) = suc (length xs)

  abbrev pub get_elem? : List A → ℕ → Option A
  get_elem? [] i = none
  get_elem? (x ∷ xs) zero = some x
  get_elem? (x ∷ xs) (suc i) = get_elem? xs i

  abbrev pub All {κ} : (A → Type κ) → List A → Type κ
  All P [] = Unit
  All P (x ∷ xs) = P x × All P xs

  pub get_elem?-some : (xs : List A) (i : ℕ) → i < length xs → (x : A) × (get_elem? xs i ≡ some x)
  get_elem?-some [] i h = elim h [ ]
  get_elem?-some (x ∷ xs) zero h = (x, refl)
  get_elem?-some (x ∷ xs) (suc i) h = get_elem?-some xs i (omega (arith, h))

  pub get_elem?-none : (xs : List A) (i : ℕ) → length xs ≤ i → get_elem? xs i ≡ none
  get_elem?-none [] i h = refl
  get_elem?-none (x ∷ xs) zero h = elim h [ ]
  get_elem?-none (x ∷ xs) (suc i) h = get_elem?-none xs i (omega (arith, h))

  pub append_nil : (xs : List A) → xs ++ [] ≡ xs
  append_nil [] = refl
  append_nil (x ∷ xs) = ap (λ (ys : List A). x ∷ ys) (append_nil xs)

  pub append_assoc : (xs ys zs : List A) → (xs ++ ys) ++ zs ≡ xs ++ (ys ++ zs)
  append_assoc [] ys zs = refl
  append_assoc (x ∷ xs) ys zs = ap (λ (js : List A). x ∷ js) (append_assoc xs ys zs)

  pub length-append : (xs ys : List A) → length (xs ++ ys) ≡ length xs + length ys
  length-append [] ys = omega arith
  length-append (x ∷ xs) ys = omega (arith, length-append xs ys)

  pub All-append {κ} : (P : A → Type κ) (xs ys : List A) → All P xs → All P ys → All P (xs ++ ys)
  All-append P [] ys _ q = q
  All-append P (x ∷ xs) ys (p, ps) q = (p, All-append P xs ys ps q)

pub length-map {ℓ κ} :
    {A : Type ℓ} {B : Type κ} (f : A → B) (xs : List A) → length (map f xs) ≡ length xs
length-map f [] = refl
length-map f (x ∷ xs) = ap suc (length-map f xs)

-- The sum of a measure of the items.
abbrev pub sum_of {ℓ} : {A : Type ℓ} → (A → ℕ) → List A → ℕ
sum_of f [] = 0
sum_of f (x ∷ xs) = f x + sum_of f xs

pub sum_of-append {ℓ} :
    {A : Type ℓ} (f : A → ℕ) (xs ys : List A) → sum_of f (xs ++ ys) ≡ sum_of f xs + sum_of f ys
sum_of-append f [] ys = omega arith
sum_of-append f (x ∷ xs) ys = omega (arith, sum_of-append f xs ys)
