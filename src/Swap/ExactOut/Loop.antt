-- ===== src/Swap/ExactOut/Loop.antt =====
-- index.ts, the loop of `swapQuoteExactOut`: termination and its outcomes.
use mathlib.Core.Path.{subst}
use dlmm_sdk.Prelude.{
  ℕ, ◌+◌, ◌≤◌, ◌<◌, ◌≡◌, ◌⊎◌, inl, inr, refl, sym, ap, ◌∙◌, arith, Bool, ◌==◌, some, List, [], ◌∷◌,
  ◌++◌, All, All-append, sum_of, sum_of-append, ok, err, insufficient_liquidity, Bool-cases, ==→eq,
}
use dlmm_sdk.Pair.{Bin, BinArray, BinArrayBitmapExtension, LbPair, VParameters}
use dlmm_sdk.BinArray.{is_bin_id_within_bin_array}
use dlmm_sdk.Fee.{QuoteAtBin}
use dlmm_sdk.Fee.Quote.Exchange.{IsLeastQuote, swap_exact_out-IsLeastQuote}
use dlmm_sdk.Swap.{next_bin}
use dlmm_sdk.Swap.ExactOut.{
  FillOut, add_quote_out, advance_out, visit_out, swap_out_round, giver, give_loop,
}
use dlmm_sdk.Swap.Market.{IsPriced, IsMarket, bins_ahead, IsInBitmaps, get_bin_ok, beside}
use dlmm_sdk.Swap.Walk.{Keeps, walk_ends}

-- A quote of a bin with a price: for what is left or the reserve, whichever is smaller, the least input.
abbrev pub IsBinQuote : LbPair → Bool → QuoteAtBin → Type 0
IsBinQuote pair y q =
    (bin : Bin) × (v : VParameters) × (left : ℕ) × (0 < bin.price)
    × IsLeastQuote bin pair.bin_step pair.parameters v y left q

-- What a round changes: the quotes of bins add up to what has been given, paid and charged.
pub record IsGiven (pair : LbPair) (y : Bool) (f g : FillOut) : Type 0 where
  pub quotes : List QuoteAtBin
  pub each : All (IsBinQuote pair y) quotes
  pub given : sum_of (λ q. q.amount_out) quotes + g.out_amount_left ≡ f.out_amount_left
  pub paid : g.actual_in_amount ≡ f.actual_in_amount + sum_of (λ q. q.amount_in) quotes
  pub charged : g.fee_amount ≡ f.fee_amount + sum_of (λ q. q.fee) quotes

IsGiven-refl : (pair : LbPair) (y : Bool) (f : FillOut) → IsGiven pair y f f
IsGiven-refl pair y f = record {
  quotes = [];
  each = tt;
  given = omega arith;
  paid = omega arith;
  charged = omega arith;
}

IsGiven-trans :
    (pair : LbPair) (y : Bool) (f g h : FillOut)
    → IsGiven pair y f g
    → IsGiven pair y g h
    → IsGiven pair y f h
IsGiven-trans pair y f g h a b = record {
  quotes = a.quotes ++ b.quotes;
  each = All-append (IsBinQuote pair y) a.quotes b.quotes a.each b.each;
  given = omega (arith, a.given, b.given, sum_of-append (λ q. q.amount_out) a.quotes b.quotes);
  paid = omega (arith, a.paid, b.paid, sum_of-append (λ q. q.amount_in) a.quotes b.quotes);
  charged = omega (arith, a.charged, b.charged, sum_of-append (λ q. q.fee) a.quotes b.quotes);
}

one_quote :
    (pair : LbPair) (y : Bool) (g : FillOut) (q : QuoteAtBin)
    → IsBinQuote pair y q
    → q.amount_out ≤ g.out_amount_left
    → (IsGiven pair y g (add_quote_out g q)) × ((add_quote_out g q).active_id ≡ g.active_id)
unfolding add_quote_out
one_quote pair y g q is fits = elim (Bool-cases (q.amount_out == 0)) [
  | inl h ↦ rw h (IsGiven-refl pair y g, refl)
  | inr h ↦ rw h (
    record {
      quotes = q ∷ [];
      each = (is, tt);
      given = omega (arith, fits);
      paid = omega arith;
      charged = omega arith;
    },
    refl,
  )
]

-- After a round, nothing is left and the bin is the same, or it is the one beside.
abbrev IsOnward : Bool → FillOut → FillOut → Type 0
IsOnward y f g =
    ((g.out_amount_left ≡ 0) × (g.active_id ≡ f.active_id)) ⊎ (g.active_id ≡ next_bin y f.active_id)

advance_out-IsGiven :
    (pair : LbPair) (y : Bool) (f g : FillOut)
    → IsGiven pair y f g
    → g.active_id ≡ f.active_id
    → IsGiven pair y f (advance_out y g) × IsOnward y f (advance_out y g)
unfolding advance_out
advance_out-IsGiven pair y f g c still = elim (Bool-cases (g.out_amount_left == 0)) [
  | inl h ↦ rw h (c, inl (==→eq g.out_amount_left 0 h, still))
  | inr h ↦ rw h (
    record {
      quotes = c.quotes;
      each = c.each;
      given = c.given;
      paid = c.paid;
      charged = c.charged;
    },
    inr (ap (next_bin y) still),
  )
]

visit_out-IsGiven :
    (pair : LbPair) (y : Bool) (arr : BinArray) (f : FillOut)
    → IsGiven pair y f (visit_out pair arr f) × ((visit_out pair arr f).active_id ≡ f.active_id)
unfolding visit_out
visit_out-IsGiven pair y arr f = (
  record { quotes = []; each = tt; given = omega arith; paid = omega arith; charged = omega arith },
  refl,
)

swap_out_round-IsGiven :
    (y : Bool) (pair : LbPair) (arr : BinArray) (f : FillOut)
    → IsPriced arr
    → (g : FillOut) × (swap_out_round y pair arr f ≡ ok g) × (IsGiven pair y f g × IsOnward y f g)
unfolding swap_out_round
swap_out_round-IsGiven y pair arr f p =
    let v = visit_out pair arr f in
    let (given, still) = visit_out-IsGiven pair y arr f in
    elim (Bool-cases (is_bin_id_within_bin_array v.active_id arr.index)) [
      | inl h ↦
          let (bin, found, priced) = get_bin_ok v.active_id arr p h in
          let (q, quoted, least) =
            swap_exact_out-IsLeastQuote bin pair.bin_step pair.parameters v.v_parameters
              v.out_amount_left y priced in
          let out = least.out_eq in
          let (added, there) =
            one_quote pair y v q (bin, v.v_parameters, v.out_amount_left, priced, least)
              (omega (arith, out)) in
          (
            advance_out y (add_quote_out v q),
            rw (h, found, quoted),
            advance_out-IsGiven pair y f (add_quote_out v q)
                (IsGiven-trans pair y f v (add_quote_out v q) given added) (there ∙ still),
          )
      | inr h ↦ (advance_out y v, rw h, advance_out-IsGiven pair y f v given still)
    ]

module _ (pair : LbPair) (extension : BinArrayBitmapExtension) (arrays : List BinArray)
    (m : IsMarket pair extension arrays) (swap_for_y : Bool) where
  -- What the rounds from `f` on keep.
  abbrev IsOut : FillOut → FillOut → Type 0
  IsOut f g = IsGiven pair swap_for_y f g × IsInBitmaps g.active_id

  giver-Keeps :
      (f : FillOut) → Keeps pair extension arrays m (giver swap_for_y pair) swap_for_y (IsOut f)
  unfolding giver
  giver-Keeps f g arr since left inside priced reach =
      let b = g.active_id in
      let (k, swapped, (given, on)) = swap_out_round-IsGiven swap_for_y pair arr g priced in
      let sum = IsGiven-trans pair swap_for_y f g k since.0 given in
      elim on [
        | inl (used, still) ↦ (k, swapped, (sum, subst IsInBitmaps (sym still) inside), inl used)
        | inr moved ↦
            let next =
              beside pair extension arrays m swap_for_y b k.active_id moved inside
                reach.ahead_one in
            (k, swapped, (sum, next.0), inr next)
      ]

  -- With the accounts of a pair in shape, and enough fuel for the bins from the active one to the end
  -- of the bitmaps, the loop of a quote for an exact output ends. It returns with the amount given in
  -- full, by quotes of bins that add up to it and to the input and the fee, at a bin of the bitmaps; or
  -- it throws the error for insufficient liquidity.
  pub give_loop_ends :
      (fuel : ℕ) (f : FillOut)
      → IsInBitmaps f.active_id
      → bins_ahead swap_for_y f.active_id + 1 < fuel
      → ((g : FillOut) × (give_loop fuel swap_for_y pair (some extension) arrays f ≡ some (ok g))
          × (g.out_amount_left ≡ 0)
          × IsGiven pair swap_for_y f g
          × IsInBitmaps g.active_id)
        ⊎ (give_loop fuel swap_for_y pair (some extension) arrays f
            ≡ some (err insufficient_liquidity))
  unfolding give_loop giver
  give_loop_ends fuel f inside enough =
      let (g, since, end) =
        walk_ends pair extension arrays m (giver swap_for_y pair) swap_for_y (IsOut f)
          (giver-Keeps f) fuel f (IsGiven-refl pair swap_for_y f, inside) inside enough in
      elim end [ inl (run, used) ↦ inl (g, run, used, since.0, since.1) | inr run ↦ inr run ]
