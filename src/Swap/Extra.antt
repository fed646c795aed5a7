-- ===== src/Swap/Extra.antt =====
-- index.ts, `swapQuote` and `swapQuoteExactOut`: the extra bin arrays beyond those that the swap
-- goes through, for a swap that finds the price moved.
pub mod Arrays
pub mod Keys
use dlmm_sdk.Prelude.{
  ℕ, zero, suc, ◌-◌, Bool, true, false, if◌then◌else◌, Option, List, [], ◌∷◌, ◌++◌, length, Result,
  ok, Fueled,
}
use dlmm_sdk.Prelude.Int.{ℤ, pos, ◌+ℤ◌, ◌-ℤ◌}
use dlmm_sdk.Pair.{BinArray, LbPair, BinArrayBitmapExtension}
use dlmm_sdk.BinArray.{get_bin_array_lower_upper_bin_id}
use dlmm_sdk.Swap.{next_bin, has_key, set_key, Walker, walk}

pub record ExtraArrays : Type 0 where
  pub active_id : ℤ
  pub extra_bin_arrays : List ℤ

-- The bin beyond an array, in the direction.
abbrev pub bin_beyond : Bool → ℤ → ℤ
unfolding get_bin_array_lower_upper_bin_id
bin_beyond true index = (get_bin_array_lower_upper_bin_id index).0 -ℤ pos 1
bin_beyond false index = (get_bin_array_lower_upper_bin_id index).1 +ℤ pos 1

-- An array of the swap is passed bin by bin; any other is pushed and passed at once.
unfoldable pub extra_round : Bool → (used : List ℤ) → BinArray → ExtraArrays → ExtraArrays
extra_round swap_for_y used arr f =
    if has_key used arr.index
    then record f { active_id = next_bin swap_for_y f.active_id }
    else record {
      active_id = bin_beyond swap_for_y arr.index;
      extra_bin_arrays = f.extra_bin_arrays ++ arr.index ∷ [];
    }

-- The loop breaks where there is no array.
unfoldable pub collector : Bool → (max_extra : ℕ) → (used : List ℤ) → Walker ExtraArrays
collector swap_for_y max_extra used = record {
  left = λ f. max_extra - length f.extra_bin_arrays;
  active_id = λ f. f.active_id;
  round = λ arr f. ok (extra_round swap_for_y used arr f);
  stop = λ f. ok f;
}

-- The loop `while (extraBinArrays.length < maxExtraBinArrays)`, on fuel.
unfoldable pub extra_loop :
    ℕ
    → (swap_for_y : Bool) → (max_extra : ℕ) → (used : List ℤ) → LbPair
    → Option BinArrayBitmapExtension
    → List BinArray
    → ExtraArrays
    → Fueled ExtraArrays
extra_loop fuel swap_for_y max_extra used pair =
    walk (collector swap_for_y max_extra used) fuel swap_for_y pair

-- The extra arrays go into the map after those of the swap.
unfoldable pub save_extra : (used extra : List ℤ) → List ℤ
save_extra used [] = used
save_extra used (k ∷ extra) = save_extra (set_key used k) extra
