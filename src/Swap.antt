-- ===== src/Swap.antt =====
-- ts-client/src/dlmm/index.ts, `swapQuote` and `swapQuoteExactOut`. Both walk over the bins from the
-- active one; this file has what their loops share.
pub mod Market
pub mod Walk
pub mod ExactIn
pub mod ExactOut
pub mod Extra
pub mod Quote
use dlmm_sdk.Prelude.{
  ℕ, zero, suc, Bool, true, false, ◌==◌, if◌then◌else◌, Option, none, some, List, [], ◌∷◌, Result,
  ok, err, Fueled,
}
use dlmm_sdk.Prelude.Int.{ℤ, pos, ◌+ℤ◌, ◌-ℤ◌, eqb_ℤ}
use dlmm_sdk.Pair.{BinArray, LbPair, BinArrayBitmapExtension}
use dlmm_sdk.BinArray.Search.{find_next_bin_array_with_liquidity}

abbrev pub next_bin : Bool → ℤ → ℤ
next_bin true active_id = active_id -ℤ pos 1
next_bin false active_id = active_id +ℤ pos 1

-- `Map.has` and `Map.set` of the map `binArraysForSwap` from the addresses of the visited arrays. It
-- is the list of their indexes, in the order of insertion.
unfoldable pub has_key : List ℤ → ℤ → Bool
has_key [] k = false
has_key (j ∷ keys) k = if eqb_ℤ j k then true else has_key keys k

unfoldable pub set_key : List ℤ → ℤ → List ℤ
set_key [] k = k ∷ []
set_key (j ∷ keys) k = if eqb_ℤ j k then j ∷ keys else j ∷ set_key keys k

-- What a round does with the outcome of the search.
abbrev pub after_search {ℓ} :
    {S : Type ℓ} → Fueled (Option BinArray) → Fueled S → (BinArray → Fueled S) → Fueled S
after_search none stop go = none
after_search (some (err e)) stop go = some (err e)
after_search (some (ok none)) stop go = stop
after_search (some (ok (some arr))) stop go = go arr

abbrev pub after_visit {ℓ} : {S : Type ℓ} → Result S → (S → Fueled S) → Fueled S
after_visit (err e) go = some (err e)
after_visit (ok f) go = go f

-- A loop over the bin arrays with liquidity: its local variables `S`, with what is left to do and the
-- active bin; a round at an array that the search found; and what it does when there is none.
pub record Walker (S : Type 0) : Type 0 where
  pub left : S → ℕ
  pub active_id : S → ℤ
  pub round : BinArray → S → Result S
  pub stop : S → Result S

-- `while (!left.isZero())`, on fuel.
unfoldable pub walk :
    {S : Type 0}
    → Walker S
    → ℕ
    → Bool
    → LbPair
    → Option BinArrayBitmapExtension
    → List BinArray
    → S
    → Fueled S
walk w zero swap_for_y pair extension arrays f = none
walk w (suc fuel) swap_for_y pair extension arrays f =
    if w.left f == 0
    then some (ok f)
    else after_search
        (find_next_bin_array_with_liquidity swap_for_y (w.active_id f) pair extension arrays)
        (some (w.stop f))
        (λ arr. after_visit (w.round arr f) (λ g. walk w fuel swap_for_y pair extension arrays g))
