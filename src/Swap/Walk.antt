-- ===== src/Swap/Walk.antt =====
-- index.ts, the loops of `swapQuote` and `swapQuoteExactOut` over the bin arrays that the search finds.
-- What the proofs about them share: a loop ends when every round keeps an invariant and leaves
-- nothing to do or fewer bins ahead.
use mathlib.Core.Path.{subst}
use dlmm_sdk.Prelude.{
  ℕ, zero, suc, ◌+◌, ◌<◌, ◌≡◌, ◌⊎◌, inl, inr, sym, ap, ◌∙◌, arith, Bool, true, false, ◌==◌, Option,
  none, some, List, [], ◌∷◌, All, ok, Fueled, Bool-cases, ==→eq, Option-cases,
}
use dlmm_sdk.Prelude.Int.{ℤ, eqb_ℤ, pos_part, neg_part, eq_of_parts}
use dlmm_sdk.Pair.{BinArray, BinArrayBitmapExtension, LbPair}
use dlmm_sdk.BinArray.{bin_id_to_bin_array_index}
use dlmm_sdk.BinArray.Search.{
  array_of_index, array_if_found, in_arrays, find_next_bin_array_with_liquidity,
  find_next_bin_array_index_with_liquidity,
}
use dlmm_sdk.BinArray.Search.Bits.{has_liquidity}
use dlmm_sdk.BinArray.Search.Nearest.{IsNearest, find_next_bin_array-IsNearest}
use dlmm_sdk.Swap.{Walker, walk, after_search, after_visit}
use dlmm_sdk.Swap.Market.{
  IsPriced, IsMarket, bins_ahead, IsInBitmaps, IsReached, nearest-IsReached, index_in_range,
}

some_injective : (a b : BinArray) → some a ≡ some b → a ≡ b
some_injective a b h = cc

array_of_index-IsPriced :
    (arrays : List BinArray) (k : ℤ) (arr : BinArray)
    → All IsPriced arrays
    → array_of_index arrays k ≡ some arr
    → IsPriced arr × (k ≡ arr.index)
unfolding array_of_index
array_of_index-IsPriced [] k arr p h = grind arith
array_of_index-IsPriced (a ∷ arrays) k arr (pa, p) h = elim (Bool-cases (eqb_ℤ a.index k)) [
  | inl e ↦
      let own : k ≡ a.index = sym (
        eq_of_parts a.index k
          (==→eq (pos_part a.index + neg_part k) (pos_part k + neg_part a.index) e)) in
      subst (λ b. IsPriced b × (k ≡ b.index)) (some_injective _ _ (rw e at h)) (pa, own)
  | inr e ↦ array_of_index-IsPriced arrays k arr p (rw e at h)
]

module _ (pair : LbPair) (extension : BinArrayBitmapExtension) (arrays : List BinArray)
    (m : IsMarket pair extension arrays) where
  array_found :
      (y : Bool) (b : ℤ) (k : Option ℤ)
      → find_next_bin_array_index_with_liquidity y b pair (some extension) ≡ some (ok k)
      → find_next_bin_array_with_liquidity y b pair (some extension) arrays
        ≡ some (ok (array_if_found arrays k))
  unfolding find_next_bin_array_with_liquidity
  array_found y b k found = ap (in_arrays arrays) found

  array_if_found-IsReached :
      (y : Bool) (b : ℤ) (k : Option ℤ) (arr : BinArray)
      → IsNearest (has_liquidity pair extension) y (bin_id_to_bin_array_index b) k
      → array_if_found arrays k ≡ some arr
      → IsPriced arr × IsReached y b arr.index
  array_if_found-IsReached y b none arr near at = grind arith
  array_if_found-IsReached y b (some k) arr near at =
      let (priced, own) = array_of_index-IsPriced arrays k arr m.priced at in
      (
        priced,
        subst (λ j. IsReached y b j) own (nearest-IsReached pair extension arrays m y b k near),
      )

  -- The search from a bin within the bitmaps returns an array with prices that it reaches, or none.
  pub search_ends :
      (y : Bool) (b : ℤ)
      → IsInBitmaps b
      → (found : Option BinArray) × (find_next_bin_array_with_liquidity y b pair
            (some extension)
            arrays
          ≡ some (ok found))
        × ((arr : BinArray) → found ≡ some arr → IsPriced arr × IsReached y b arr.index)
  search_ends y b inside =
      let range = index_in_range pair extension arrays m b inside in
      let (k, found, near) =
        find_next_bin_array-IsNearest pair extension m.shape y b range.0 range.1 in
      (
        array_if_found arrays k,
        array_found y b k found,
        λ arr at. array_if_found-IsReached y b k arr near at,
      )

  module _ {S : Type 0} (w : Walker S) (y : Bool) (Inv : S → Type 0) where
    abbrev walked : ℕ → S → Fueled S
    walked fuel f = walk w fuel y pair (some extension) arrays f

    -- A round keeps the invariant, and leaves nothing to do or fewer bins ahead.
    abbrev pub Keeps : Type 0
    Keeps =
        (f : S) (arr : BinArray)
        → Inv f
        → w.left f == 0 ≡ false
        → IsInBitmaps (w.active_id f)
        → IsPriced arr
        → IsReached y (w.active_id f) arr.index
        → (g : S) × (w.round arr f ≡ ok g)
          × Inv g
          × ((w.left g ≡ 0)
              ⊎ (IsInBitmaps (w.active_id g)
                  × (bins_ahead y (w.active_id g) < bins_ahead y (w.active_id f))))

    -- The walk ends: nothing is left, or there is no array and the loop stops.
    abbrev pub Ended : ℕ → S → Type 0
    Ended fuel f =
        (g : S) × Inv g
        × (((walked fuel f ≡ some (ok g)) × (w.left g ≡ 0)) ⊎ (walked fuel f ≡ some (w.stop g)))

    walk_done : (fuel : ℕ) (f : S) → Inv f → w.left f ≡ 0 → 0 < fuel → Ended fuel f
    unfolding walk
    walk_done zero f inv none_left h = elim h [ ]
    walk_done (suc fuel) f inv none_left h =
        let e : w.left f == 0 ≡ true = rw none_left in (f, inv, inl (rw e, none_left))

    walk_step :
        (fuel : ℕ) (f : S) (found : Option BinArray)
        → w.left f == 0 ≡ false
        → find_next_bin_array_with_liquidity y (w.active_id f) pair (some extension) arrays
          ≡ some (ok found)
        → walked (suc fuel) f
          ≡ after_search
              (some (ok found))
              (some (w.stop f))
              (λ arr. after_visit (w.round arr f) (λ g. walked fuel g))
    unfolding walk
    walk_step fuel f found left at = rw (left, at)

    after_step :
        (fuel : ℕ) (f g : S) (arr : BinArray)
        → w.left f == 0 ≡ false
        → find_next_bin_array_with_liquidity y (w.active_id f) pair (some extension) arrays
          ≡ some (ok (some arr))
        → w.round arr f ≡ ok g
        → Ended fuel g
        → Ended (suc fuel) f
    after_step fuel f g arr left at round (e, inv, end) =
        let step = walk_step fuel f (some arr) left at ∙ rw round in
        (e, inv, elim end [ inl (run, used) ↦ inl (step ∙ run, used) | inr run ↦ inr (step ∙ run) ])

    -- With the accounts of a pair in shape, and enough fuel for the bins from the active one to the
    -- end of the bitmaps, a walk whose rounds keep an invariant ends.
    pub walk_ends :
        Keeps
        → (fuel : ℕ) (f : S) → Inv f
        → IsInBitmaps (w.active_id f)
        → bins_ahead y (w.active_id f) + 1 < fuel
        → Ended fuel f
    walk_ends keeps zero f inv inside enough = elim enough [ ]
    walk_ends keeps (suc fuel) f inv inside enough = elim (Bool-cases (w.left f == 0)) [
      | inl h ↦ walk_done (suc fuel) f inv (==→eq (w.left f) 0 h) (omega arith)
      | inr left ↦
          let (found, at, reached) = search_ends y (w.active_id f) inside in
          elim (Option-cases found) [
            | inl absent ↦ (f, inv, inr (walk_step fuel f found left at ∙ rw absent))
            | inr (arr, is) ↦
                let (priced, reach) = reached arr is in
                let (g, round, kept, on) = keeps f arr inv left inside priced reach in
                after_step fuel f g arr left (at ∙ rw is) round (elim on [
                  | inl used ↦ walk_done fuel g kept used (omega (arith, enough, reach.ahead_one))
                  | inr (still, fewer) ↦
                      walk_ends keeps fuel g kept still (omega (arith, enough, fewer))
                ])
          ]
    ]
