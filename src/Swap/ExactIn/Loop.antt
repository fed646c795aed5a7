-- ===== src/Swap/ExactIn/Loop.antt =====
-- index.ts, the loop of `swapQuote`: termination and its outcomes.
use dlmm_sdk.Prelude.{
  ℕ, ◌+◌, ◌≤◌, ◌<◌, ◌≡◌, ◌⊎◌, inl, inr, refl, ap, ◌∙◌, arith, Bool, true, false, some, List, Result,
  ok, err, insufficient_liquidity, sym, if◌then◌else◌,
}
use mathlib.Core.Path.{subst}
use dlmm_sdk.Pair.{BinArray, BinArrayBitmapExtension, LbPair}
use dlmm_sdk.Swap.ExactIn.{Fill, filler, fill_loop}
use dlmm_sdk.Swap.ExactIn.Totals.{IsOpened, swap_round-IsRound}
use dlmm_sdk.Swap.Extra.Keys.{AreDistinct}
use dlmm_sdk.Swap.Market.{IsMarket, bins_ahead, IsInBitmaps, beside}
use dlmm_sdk.Swap.Walk.{Keeps, walk_ends}

-- How the loop ends from a start: with the amount used up, or with a partial fill where it is
-- allowed, and with fees that are part of the amount taken; or, where it is not, with the error for
-- liquidity that does not suffice.
unfoldable pub IsEnd : Bool → Fill → Result Fill → Type 0
IsEnd is_partial_fill f (ok g) =
    ((g.in_amount_left ≡ 0) ⊎ (is_partial_fill ≡ true))
    × (g.in_amount_left ≤ f.in_amount_left)
    × (g.fee_amount + g.in_amount_left ≤ f.fee_amount + f.in_amount_left)
IsEnd is_partial_fill f (err e) = (e ≡ insufficient_liquidity) × (is_partial_fill ≡ false)

-- What the rounds from `f` on keep.
pub record IsSince (f g : Fill) : Type 0 where
  pub inside : IsInBitmaps g.active_id
  pub charged : g.fee_amount + g.in_amount_left ≤ f.fee_amount + f.in_amount_left
  pub less : g.in_amount_left ≤ f.in_amount_left
  pub once : AreDistinct f.bin_arrays_for_swap → AreDistinct g.bin_arrays_for_swap
  pub opened :
      (n : ℕ) → IsOpened n f.in_amount_left f.start_bin → IsOpened n g.in_amount_left g.start_bin

IsSince-refl : (f : Fill) → IsInBitmaps f.active_id → IsSince f f
IsSince-refl f inside = record {
  inside = inside;
  charged = omega arith;
  less = omega arith;
  once = λ d. d;
  opened = λ n o. o;
}

stopped :
    (is_partial_fill : Bool) (f g : Fill)
    → IsSince f g
    → (r : Result Fill) × ((if is_partial_fill then ok g else err insufficient_liquidity) ≡ r)
      × IsEnd is_partial_fill f r
unfolding IsEnd
stopped true f g since = (ok g, refl, (inr refl, since.less, since.charged))
stopped false f g since = (err insufficient_liquidity, refl, (refl, refl))

module _ (pair : LbPair) (extension : BinArrayBitmapExtension) (arrays : List BinArray)
    (m : IsMarket pair extension arrays) (swap_for_y is_partial_fill : Bool) where
  filler-Keeps :
      (f : Fill)
      → Keeps pair extension arrays m
          (filler swap_for_y is_partial_fill pair)
          swap_for_y
          (IsSince f)
  unfolding filler
  filler-Keeps f g arr since left inside priced reach =
      let (k, swapped, round) = swap_round-IsRound swap_for_y pair arr g priced m.share in
      let a = round.charged in
      let b = since.charged in
      let c = round.less in
      let d = since.less in
      let kept : IsInBitmaps k.active_id → IsSince f k = λ within. record {
        inside = within;
        charged = omega (arith, a, b);
        less = omega (arith, c, d);
        once = λ d. round.once (since.once d);
        opened = λ n o. round.opened n (since.opened n o);
      } in
      elim round.on [
        | inl (used, still) ↦ (k, swapped, kept (subst IsInBitmaps (sym still) inside), inl used)
        | inr moved ↦
            let next =
              beside pair extension arrays m swap_for_y g.active_id k.active_id moved inside
                reach.ahead_one in
            (k, swapped, kept next.0, inr next)
      ]

  -- The loop ends on enough fuel: it returns with nothing left, or stops without an array.
  pub fill_loop_ends :
      (fuel : ℕ) (f : Fill)
      → IsInBitmaps f.active_id
      → bins_ahead swap_for_y f.active_id + 1 < fuel
      → (g : Fill) × IsSince f g
        × (((fill_loop fuel swap_for_y is_partial_fill pair (some extension) arrays f ≡ some (ok g))
              × (g.in_amount_left ≡ 0))
            ⊎ (fill_loop fuel swap_for_y is_partial_fill pair (some extension) arrays f
                ≡ some (if is_partial_fill then ok g else err insufficient_liquidity)))
  unfolding fill_loop filler
  fill_loop_ends fuel f inside enough =
      walk_ends pair extension arrays m (filler swap_for_y is_partial_fill pair) swap_for_y
        (IsSince f) (filler-Keeps f) fuel f (IsSince-refl f inside) inside enough

  -- With the accounts of a pair in shape, and enough fuel for the bins from the active one to the end
  -- of the bitmaps, the loop ends. It returns, with the amount used up unless a partial fill is
  -- allowed, an amount left that has not grown, and fees that have grown by at most what was taken; or
  -- a partial fill is not allowed and it throws the error for insufficient liquidity.
  pub fill_loop-IsEnd :
      (fuel : ℕ) (f : Fill)
      → IsInBitmaps f.active_id
      → bins_ahead swap_for_y f.active_id + 1 < fuel
      → (r : Result Fill) × (fill_loop fuel swap_for_y is_partial_fill pair
            (some extension)
            arrays
            f
          ≡ some r)
        × IsEnd is_partial_fill f r
  unfolding IsEnd
  fill_loop-IsEnd fuel f inside enough =
      let (g, since, end) = fill_loop_ends fuel f inside enough in
      elim end [
        | inl (run, used) ↦ (ok g, run, (inl used, since.less, since.charged))
        | inr run ↦
            let (r, e, is_end) = stopped is_partial_fill f g since in (r, run ∙ ap some e, is_end)
      ]
