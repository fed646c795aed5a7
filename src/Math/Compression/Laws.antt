-- ===== src/Math/Compression/Laws.antt =====
-- math.ts, `compressBinAmount` and `findOptimumDecompressMultiplier`: losses and the multiplier.
use native.Mathlib.Nat.{div-add-mod', div-eq_of_lt, one-le-pow, pow-suc, mul-div_cancel}
use dlmm_sdk.Prelude.{
  ℕ, zero, suc, ◌+◌, ◌-◌, ◌*◌, ◌/◌, ◌^◌, ◌≤◌, ◌<◌, ◌≡◌, List, [], ◌∷◌, Option, none, some, Result,
  ok, err, arith, true, false, ◌==◌, Bool-cases, pos_test, ◌⊎◌, optimum_multiplier_not_found, inl,
  inr, sum_of, if◌then◌else◌, length, All, refl,
}
use dlmm_sdk.Math.Compression.{
  Entry, amount_of, compress_bin_amount, all_representable, search_multiplier,
  find_optimum_decompress_multiplier,
}

div-mul-le : (a m : ℕ) → a / m * m ≤ a
div-mul-le a m = omega (arith, div-add-mod' a m)

rest-le : (a m : ℕ) → 0 < m → a - a / m * m ≤ m
rest-le a m h = grind (arith, div-add-mod' a m)

-- For a multiplier that is not zero the call returns, and the compressed amounts, scaled back, and the
-- loss add up to the amounts.
pub compress_bin_amount_conserves :
    (entries : List Entry) (multiplier : ℕ)
    → 0 < multiplier
    → (out : List Entry) × (loss : ℕ) × (compress_bin_amount entries multiplier ≡ ok (out, loss))
      × (sum_of (λ e. e.1 * multiplier) out + loss ≡ sum_of amount_of entries)
      × (loss ≤ multiplier * length entries)
unfolding compress_bin_amount
compress_bin_amount_conserves [] multiplier h = ([], 0, refl, refl, omega arith)
compress_bin_amount_conserves ((b, a) ∷ rest) multiplier h =
    let (out, loss, e, s, l) = compress_bin_amount_conserves rest multiplier h in
    (
      (b, a / multiplier) ∷ out,
      (a - a / multiplier * multiplier) + loss,
      rw (pos_test multiplier h, e),
      omega (arith, s, div-mul-le a multiplier),
      omega (arith, l, rest-le a multiplier h),
    )

pub quotient_zero : (a m : ℕ) → 0 < m → a / m ≡ 0 → a < m
quotient_zero a m h e = grind (arith, div-add-mod' a m)

pub quotient_pos : (a m : ℕ) → 0 < m → a < m → (a / m == 0) ≡ true
quotient_pos a m h k = rw (div-eq_of_lt k)

-- No amount is compressed to zero exactly when each is at least the multiplier.
abbrev pub AllAtLeast : ℕ → List Entry → Type 0
AllAtLeast m = All (λ e. m ≤ e.1)

representable→AllAtLeast :
    (entries : List Entry) (m : ℕ)
    → 0 < m
    → all_representable entries m ≡ true
    → AllAtLeast m entries
unfolding all_representable
representable→AllAtLeast [] m h e = tt
representable→AllAtLeast ((b, a) ∷ rest) m h e =
    ground (arith, quotient_pos a m h, representable→AllAtLeast rest m h)

not_representable→not_AllAtLeast :
    (entries : List Entry) (m : ℕ)
    → 0 < m
    → all_representable entries m ≡ false
    → ¬ AllAtLeast m entries
unfolding all_representable
not_representable→not_AllAtLeast [] m h e q = cc
not_representable→not_AllAtLeast ((b, a) ∷ rest) m h e q =
    ground (arith, quotient_zero a m h, not_representable→not_AllAtLeast rest m h)

-- What the call promises for `10 ^ top`: the greatest power of ten, up to it, that no amount is below.
-- It throws only if even one is too much, that is, if an amount is zero; it never runs out of fuel.
abbrev pub IsGreatestPower : List Entry → ℕ → Option (Result ℕ) → Type 0
IsGreatestPower entries top none = ⊥
IsGreatestPower entries top (some (ok m)) =
    (j : ℕ) × (m ≡ 10 ^ j)
    × (j ≤ top)
    × AllAtLeast m entries
    × ((j ≡ top) ⊎ (¬ AllAtLeast (10 ^ suc j) entries))
IsGreatestPower entries top (some (err e)) =
    (e ≡ optimum_multiplier_not_found) × (¬ AllAtLeast 1 entries)

IsGreatestPower-higher :
    (entries : List Entry) (top : ℕ) (r : Option (Result ℕ))
    → ¬ AllAtLeast (10 ^ suc top) entries
    → IsGreatestPower entries top r
    → IsGreatestPower entries (suc top) r
IsGreatestPower-higher entries top none n o = o
IsGreatestPower-higher entries top (some (err e)) n o = o
IsGreatestPower-higher entries top (some (ok m)) n (j, e, l, q, inl same) =
    (j, e, omega arith, q, inr (rw same n))
IsGreatestPower-higher entries top (some (ok m)) n (j, e, l, q, inr more) =
    (j, e, omega arith, q, inr more)

search_zero :
    (fuel : ℕ) (entries : List Entry)
    → 0 < fuel
    → search_multiplier fuel entries 0 ≡ some (err optimum_multiplier_not_found)
unfolding search_multiplier
search_zero zero entries h = elim h [ ]
search_zero (suc fuel) entries h = refl

search_step :
    (fuel : ℕ) (entries : List Entry) (m : ℕ)
    → search_multiplier (suc fuel) entries m ≡ (
        if m == 0
        then some (err optimum_multiplier_not_found)
        else if all_representable entries m
        then some (ok m)
        else search_multiplier fuel entries (m / 10))
unfolding search_multiplier
search_step fuel entries m = refl

ten-pow-div : (k : ℕ) → 10 ^ suc k / 10 ≡ 10 ^ k
ten-pow-div k = rw (pow-suc, mul-div_cancel (10 ^ k) {n = 10} (omega arith))

search_multiplier-IsGreatestPower :
    (fuel k : ℕ) (entries : List Entry)
    → k + 1 < fuel
    → IsGreatestPower entries k (search_multiplier fuel entries (10 ^ k))
search_multiplier-IsGreatestPower zero k entries h = elim h [ ]
search_multiplier-IsGreatestPower (suc fuel) zero entries h =
    elim (Bool-cases (all_representable entries 1)) [
      | inl fits ↦
          unfold search_multiplier in
          rw fits
            (0, refl, omega arith, representable→AllAtLeast entries 1 (omega arith) fits, inl refl)
      | inr fails ↦
          rw (search_step fuel entries _, fails, search_zero fuel entries (omega arith))
            (refl, not_representable→not_AllAtLeast entries 1 (omega arith) fails)
    ]
search_multiplier-IsGreatestPower (suc fuel) (suc k) entries h =
    let positive : 0 < 10 ^ suc k = one-le-pow (suc k) 10 (omega arith) in
    elim (Bool-cases (all_representable entries (10 ^ suc k))) [
      | inl fits ↦
          rw (search_step fuel entries _, pos_test (10 ^ suc k) positive, fits)
            (suc k, refl, omega arith, representable→AllAtLeast entries _ positive fits, inl refl)
      | inr fails ↦
          rw (search_step fuel entries _, pos_test (10 ^ suc k) positive, fails, ten-pow-div k)
            (IsGreatestPower-higher entries k (search_multiplier fuel entries (10 ^ k))
              (not_representable→not_AllAtLeast entries _ positive fails)
              (search_multiplier-IsGreatestPower fuel k entries (omega arith)))
    ]

-- For a token of `decimal` places, the multiplier found is the greatest power of ten, up to
-- `10 ^ decimal`, that no amount is below. The call throws only if an amount is zero, and it ends.
pub find_optimum_decompress_multiplier-IsGreatestPower :
    (entries : List Entry) (decimal : ℕ)
    → IsGreatestPower entries decimal (find_optimum_decompress_multiplier entries decimal)
unfolding find_optimum_decompress_multiplier
find_optimum_decompress_multiplier-IsGreatestPower entries decimal =
    search_multiplier-IsGreatestPower (decimal + 2) decimal entries (omega arith)
