-- ===== src/Swap/ExactIn/Totals.antt =====
-- index.ts, a round of the loop of `swapQuote`: its errors and the totals that it changes.
use dlmm_sdk.Prelude.{
  ℕ, ◌+◌, ◌≤◌, ◌<◌, ◌≡◌, ◌⊎◌, inl, inr, refl, ap, arith, Bool, ◌==◌, Option, none, some, ok,
  Bool-cases, ==→eq,
}
use dlmm_sdk.Constants.{basis_point_max}
use dlmm_sdk.Pair.{Bin, BinArray, LbPair}
use dlmm_sdk.Fee.{QuoteAtBin}
use dlmm_sdk.Fee.Quote.{swap_exact_in-IsFairQuote}
use dlmm_sdk.BinArray.{is_bin_id_within_bin_array}
use dlmm_sdk.Swap.{next_bin}
use dlmm_sdk.Swap.Extra.Keys.{AreDistinct, set_key-AreDistinct}
use dlmm_sdk.Swap.Market.{IsPriced, get_bin_ok}
use dlmm_sdk.Swap.ExactIn.{Fill, first_of, add_quote, advance, visit, swap_round}

-- What was taken was taken from a first bin, which has a price: with `n` to take and without a first
-- bin, all is left.
abbrev pub IsOpened : (n left : ℕ) → Option Bin → Type 0
IsOpened n left none = left ≡ n
IsOpened n left (some bin) = 0 < bin.price

-- The fee grows by a part of what the amount left goes down by; and either nothing is left and
-- the bin is the same, or it is the one beside.
pub record IsRound (swap_for_y : Bool) (f g : Fill) : Type 0 where
  pub charged : g.fee_amount + g.in_amount_left ≤ f.fee_amount + f.in_amount_left
  pub less : g.in_amount_left ≤ f.in_amount_left
  pub more : f.fee_amount ≤ g.fee_amount
  pub opened :
      (n : ℕ) → IsOpened n f.in_amount_left f.start_bin → IsOpened n g.in_amount_left g.start_bin
  pub once : AreDistinct f.bin_arrays_for_swap → AreDistinct g.bin_arrays_for_swap
  pub on :
      ((g.in_amount_left ≡ 0) × (g.active_id ≡ f.active_id))
      ⊎ (g.active_id ≡ next_bin swap_for_y f.active_id)

-- What does not move the active bin.
record IsCharge (f g : Fill) : Type 0 where
  charged : g.fee_amount + g.in_amount_left ≤ f.fee_amount + f.in_amount_left
  less : g.in_amount_left ≤ f.in_amount_left
  more : f.fee_amount ≤ g.fee_amount
  opened :
      (n : ℕ) → IsOpened n f.in_amount_left f.start_bin → IsOpened n g.in_amount_left g.start_bin
  once : AreDistinct f.bin_arrays_for_swap → AreDistinct g.bin_arrays_for_swap
  still : g.active_id ≡ f.active_id

visit-IsCharge : (pair : LbPair) (arr : BinArray) (f : Fill) → IsCharge f (visit pair arr f)
unfolding visit
visit-IsCharge pair arr f = record {
  charged = omega arith;
  less = omega arith;
  more = omega arith;
  opened = λ n o. o;
  once = set_key-AreDistinct f.bin_arrays_for_swap arr.index;
  still = refl;
}

first_of-IsOpened :
    (n k left : ℕ) (start : Option Bin) (bin : Bin)
    → 0 < bin.price
    → IsOpened n k start
    → IsOpened n left (first_of start bin)
first_of-IsOpened n k left none bin priced o = priced
first_of-IsOpened n k left (some b) bin priced o = o

add_quote-IsCharge :
    (f g : Fill) (bin : Bin) (q : QuoteAtBin)
    → IsCharge f g
    → 0 < bin.price
    → q.amount_in ≤ g.in_amount_left
    → q.fee ≤ q.amount_in
    → IsCharge f (add_quote g bin q)
unfolding add_quote
add_quote-IsCharge f g bin q c priced taken fee = elim (Bool-cases (q.amount_in == 0)) [
  | inl h ↦ rw h c
  | inr h ↦
      let a = c.charged in
      let b = c.less in
      let d = c.more in
      rw h (record {
        charged = omega (arith, a, taken, fee);
        less = omega (arith, b);
        more = omega (arith, d);
        opened =
            λ n o. first_of-IsOpened n g.in_amount_left _ g.start_bin bin priced (c.opened n o);
        once = c.once;
        still = c.still;
      })
]

advance-IsRound : (y : Bool) (f g : Fill) → IsCharge f g → IsRound y f (advance y g)
unfolding advance
advance-IsRound y f g c = elim (Bool-cases (g.in_amount_left == 0)) [
  | inl h ↦ rw h (record {
    charged = c.charged;
    less = c.less;
    more = c.more;
    opened = c.opened;
    once = c.once;
    on = inl (==→eq g.in_amount_left 0 h, c.still);
  })
  | inr h ↦ rw h (record {
    charged = c.charged;
    less = c.less;
    more = c.more;
    opened = c.opened;
    once = c.once;
    on = inr (ap (next_bin y) c.still);
  })
]

-- A round of the loop does not throw.
pub swap_round-IsRound :
    (y : Bool) (pair : LbPair) (arr : BinArray) (f : Fill)
    → IsPriced arr
    → pair.parameters.protocol_share ≤ basis_point_max
    → (g : Fill) × (swap_round y pair arr f ≡ ok g) × IsRound y f g
unfolding swap_round
swap_round-IsRound y pair arr f p share =
    let v = visit pair arr f in
    elim (Bool-cases (is_bin_id_within_bin_array v.active_id arr.index)) [
      | inl h ↦
          let (bin, found, priced) = get_bin_ok v.active_id arr p h in
          let (q, quoted, fair) =
            swap_exact_in-IsFairQuote bin pair.bin_step pair.parameters v.v_parameters
              v.in_amount_left y priced share in
          (
            advance y (add_quote v bin q),
            rw (h, found, quoted),
            advance-IsRound y f _ (
                add_quote-IsCharge f v bin q (visit-IsCharge pair arr f) priced fair.in_le
                  fair.fee_le),
          )
      | inr h ↦ (advance y v, rw h, advance-IsRound y f v (visit-IsCharge pair arr f))
    ]
