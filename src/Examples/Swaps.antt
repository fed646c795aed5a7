-- ===== src/Examples/Swaps.antt =====
-- The loops of the quotes at concrete data.
use dlmm_sdk.Prelude.{◌≡◌, refl, arith, true, false, some, ok, Result, [], ◌∷◌}
use dlmm_sdk.Prelude.Int.{pos}
use dlmm_sdk.Swap.ExactIn.{Fill, fill_loop}
use dlmm_sdk.Swap.Extra.{ExtraArrays, extra_loop}
use dlmm_sdk.Swap.Market.{IsMarket, IsPriced}
use dlmm_sdk.Swap.ExactIn.Loop.{IsEnd, fill_loop-IsEnd}
use dlmm_sdk.Swap.Extra.Arrays.{AreExtra, extra_loop_ends}
use dlmm_sdk.BinArray.Search.Bits.{has_liquidity}
use dlmm_sdk.BinArray.Bitmap.Words.{word_bit}
use dlmm_sdk.Prelude.Numbers.{testn}
use dlmm_sdk.Examples.Data.{array, pair, extension, fill}
use dlmm_sdk.Examples.Arrays.{pair-IsWellFormed}

array-IsPriced : IsPriced array
array-IsPriced = record { seventy = refl; prices = omega arith }

pub pair-IsMarket : IsMarket pair extension (array ∷ [])
unfolding has_liquidity word_bit testn
pair-IsMarket = record {
  shape = pair-IsWellFormed;
  priced = (array-IsPriced, tt);
  share = omega arith;
  top = refl;
  bottom = refl;
}

fill_loop-IsEnd_example :
    (r : Result Fill) × (fill_loop 466000 true false pair (some extension) (array ∷ []) (fill 1200)
      ≡ some r)
    × IsEnd false (fill 1200) r
fill_loop-IsEnd_example =
    fill_loop-IsEnd pair extension (array ∷ []) pair-IsMarket true false 466000 (fill 1200)
      (omega arith) (omega arith)

extra_loop_ends_example :
    (g : ExtraArrays) × (extra_loop 466000 true 2
        (pos 5 ∷ [])
        pair
        (some extension)
        (array ∷ [])
        (record { active_id = pos 2; extra_bin_arrays = [] })
      ≡ some (ok g))
    × AreExtra true 2 (pos 5 ∷ []) g
extra_loop_ends_example =
    extra_loop_ends pair extension (array ∷ []) pair-IsMarket true 2 (pos 5 ∷ []) 466000 (pos 2)
      (omega arith) (omega arith)
