-- ===== src/Swap/Quote/Arrays.antt =====
-- index.ts, `swapQuote` and `swapQuoteExactOut`: the bin arrays of a quote.
use dlmm_sdk.Prelude.{
  append_nil, ◌+◌, ◌≤◌, ◌<◌, ◌≡◌, inl, inr, sym, arith, Bool, true, false, ◌&&◌, some, List, [],
  ◌++◌, All, length, ok, Bool-cases,
}
use dlmm_sdk.Prelude.Int.{ℤ, pos, ltb_ℤ, leb_ℤ, pos_part}
use dlmm_sdk.Pair.{BinArray, BinArrayBitmapExtension, LbPair}
use dlmm_sdk.Swap.{has_key}
use dlmm_sdk.Swap.Extra.{save_extra}
use dlmm_sdk.Swap.Extra.Keys.{AreDistinct, save_extra-append, save_extra-AreDistinct}
use dlmm_sdk.Swap.Extra.Arrays.{extra_loop_ends}
use dlmm_sdk.Swap.Market.{IsMarket, IsInBitmaps, bins_ahead}
use dlmm_sdk.Swap.Quote.{loop_fuel, with_extra}

-- The arrays of a quote: those of the swap, then others, no more than asked for and each of them
-- once.
pub record IsExtended (max_extra : ℤ) (used keys : List ℤ) : Type 0 where
  pub extra : List ℤ
  pub keys_eq : keys ≡ used ++ extra
  pub bounded : length extra ≤ pos_part max_extra
  pub unused : All (λ j. has_key used j ≡ false) extra
  pub distinct : AreDistinct extra
  pub once : AreDistinct used → AreDistinct keys

pub enough_fuel : (y : Bool) (b : ℤ) → IsInBitmaps b → bins_ahead y b + 1 < loop_fuel
enough_fuel true b (lo, hi) = omega (arith, lo, hi)
enough_fuel false b (lo, hi) = omega (arith, lo, hi)

pub with_extra-IsExtended :
    (pair : LbPair) (extension : BinArrayBitmapExtension) (arrays : List BinArray)
    → IsMarket pair extension arrays
    → (y : Bool) (max_extra b : ℤ) (used : List ℤ) → IsInBitmaps b
    → (keys : List ℤ) × (with_extra y max_extra pair (some extension) arrays b used
        ≡ some (ok keys))
      × IsExtended max_extra used keys
unfolding with_extra
with_extra-IsExtended pair extension arrays m y max_extra b used inside =
    elim (Bool-cases (ltb_ℤ (pos 0) max_extra && leb_ℤ max_extra (pos 3))) [
      | inl asked ↦
          let (g, run, e) =
            extra_loop_ends pair extension arrays m y (pos_part max_extra) used loop_fuel b inside
              (enough_fuel y b inside) in
          let is : IsExtended max_extra used (save_extra used g.extra_bin_arrays) = record {
            extra = g.extra_bin_arrays;
            keys_eq = save_extra-append used g.extra_bin_arrays e.distinct e.unused;
            bounded = e.bounded;
            unused = e.unused;
            distinct = e.distinct;
            once = save_extra-AreDistinct used g.extra_bin_arrays;
          } in
          (save_extra used g.extra_bin_arrays, rw (asked, run), is)
      | inr none_asked ↦
          let is : IsExtended max_extra used used = record {
            extra = [];
            keys_eq = sym (append_nil used);
            bounded = omega arith;
            unused = tt;
            distinct = tt;
            once = λ d. d;
          } in
          (used, rw none_asked, is)
    ]
