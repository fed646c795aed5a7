-- ===== src/Prelude/Outcome.antt =====
-- A call that returns or throws. The errors are those that the modelled code raises: its own
-- `throw`s, the failed assertions of BN (a division by zero, a shift of a negative number, a text that
-- is no number), the TypeError of reading a missing item, and the RangeError of a negative length.
use mathlib.Core.Path.{◌≡◌, refl}
use mathlib.Core.Logic.{◌⊎◌, inl, inr}
use mathlib.Core.Option.{Option, none, some}

pub data Error : Type 0 where
  assertion_failed : Error
  type_error : Error
  range_error : Error
  have_decimals : Error
  base_factor_overflow : Error
  base_factor_underflow : Error
  base_factor_not_exact : Error
  optimum_multiplier_not_found : Error
  insufficient_liquidity : Error
  invalid_max_extra_bin_arrays : Error
  invalid_bps : Error
  invalid_bin_range : Error
  overlap_bin_range : Error
  no_rebalance_action : Error
  invalid_strategy_params : Error
  invalid_parameters : Error

-- A call throws an error or returns a value.
pub data Result {ℓ} (T : Type ℓ) : Type ℓ where
  err : Error → Result T
  ok : T → Result T

-- A read of an item that may be missing.
abbrev pub from_option {ℓ} : {A : Type ℓ} → Error → Option A → Result A
from_option e none = err e
from_option e (some a) = ok a

-- An error skips what follows.
infixl 5 ◌>>=◌
abbrev pub ◌>>=◌ {ℓ κ} : {S : Type ℓ} {T : Type κ} → Result S → (S → Result T) → Result T
err thrown >>= next = err thrown
ok value >>= next = next value

pub ok_injective {ℓ} : {A : Type ℓ} (a b : A) → ok a ≡ ok b → a ≡ b
ok_injective a b h = cc

-- What a loop on fuel gives: `none` means that the fuel ran out.
abbrev pub Fueled {ℓ} : Type ℓ → Type ℓ
Fueled A = Option (Result A)

pub Result-cases {ℓ} :
    {T : Type ℓ} (r : Result T)
    → ((value : T) × (r ≡ ok value)) ⊎ ((thrown : Error) × (r ≡ err thrown))
Result-cases (err thrown) = inr (thrown, refl)
Result-cases (ok value) = inl (value, refl)
