-- ===== src/Swap/Market.antt =====
-- The accounts of a pair as the loops over its bins find them, and the bins that are left between the
-- active one and the end of the bitmaps.
use mathlib.Core.Path.{subst}
use dlmm_sdk.Prelude.{
  ℕ, ◌+◌, ◌-◌, ◌≤◌, ◌<◌, ◌≡◌, inl, inr, sym, ◌∙◌, arith, Bool, true, false, ◌==◌, some, List, [],
  ◌∷◌, All, length, get_elem?, zero, suc, refl, Bool-cases, ==→eq, leb, leb-false→lt,
}
use dlmm_sdk.Prelude.Int.{
  ℤ, pos, negsuc, pos_part, neg_part, ◌+ℤ◌, ◌-ℤ◌, ◌≤ℤ◌, ◌<ℤ◌, int_laws, parts_of_eq,
  parts_exclusive,
}
use dlmm_sdk.Constants.{basis_point_max}
use dlmm_sdk.Pair.{Bin, BinArray, BinArrayBitmapExtension, LbPair}
use dlmm_sdk.BinArray.{
  bin_id_to_bin_array_index, is_bin_id_within_bin_array, get_bin_from_bin_array,
}
use dlmm_sdk.BinArray.Index.{bin_array_index_parts, place_within, get_bin_from_bin_array_at}
use dlmm_sdk.BinArray.Bitmap.Scan.{ahead_up, ahead_down}
use dlmm_sdk.BinArray.Search.Bits.{has_liquidity, IsWellFormed, beyond_pos, beyond_negsuc}
use dlmm_sdk.BinArray.Search.Nearest.{IsNearest}
use dlmm_sdk.Swap.{next_bin}

-- An array of 70 bins that have a price.
pub record IsPriced (arr : BinArray) : Type 0 where
  pub seventy : length arr.bins ≡ 70
  pub prices : All (λ b. 0 < b.price) arr.bins

get_priced :
    (bins : List Bin) (i : ℕ)
    → All (λ b. 0 < b.price) bins
    → i < length bins
    → (bin : Bin) × (get_elem? bins i ≡ some bin) × (0 < bin.price)
get_priced [] i _ h = elim h [ ]
get_priced (b ∷ bins) zero (p, _) h = (b, refl, p)
get_priced (b ∷ bins) (suc i) (_, p) h = get_priced bins i p (omega (arith, h))

-- A bin id within an array with prices has a bin there, with its price.
pub get_bin_ok :
    (b : ℤ) (arr : BinArray)
    → IsPriced arr
    → is_bin_id_within_bin_array b arr.index ≡ true
    → (bin : Bin) × (get_bin_from_bin_array b arr ≡ some bin) × (0 < bin.price)
get_bin_ok b arr p h =
    let (n, lt, at) = place_within b arr.index h in
    let (bin, found, priced) = get_priced arr.bins n p.prices (omega (arith, lt, p.seventy)) in
    (bin, get_bin_from_bin_array_at b arr n at ∙ found, priced)

-- The accounts of a pair as the chain keeps them. The arrays at the two ends of the bitmaps hold
-- no bin id of a pair, so that their bits are clear.
pub record IsMarket (pair : LbPair) (extension : BinArrayBitmapExtension) (arrays : List BinArray)
    : Type 0 where
  pub shape : IsWellFormed pair extension
  pub priced : All IsPriced arrays
  pub share : pair.parameters.protocol_share ≤ basis_point_max
  pub top : has_liquidity pair extension (pos 6655) ≡ false
  pub bottom : has_liquidity pair extension (negsuc 6655) ≡ false

-- The bins from an active bin to the end of the bitmaps.
abbrev pub bins_ahead : Bool → ℤ → ℕ
bins_ahead true b = pos_part b + 465920 - neg_part b
bins_ahead false b = neg_part b + 465919 - pos_part b

abbrev pub IsInBitmaps : ℤ → Type 0
IsInBitmaps b = (negsuc 465919 ≤ℤ b) × (b ≤ℤ pos 465919)

-- An index on the side of the direction.
abbrev pub IsOn : Bool → ℤ → ℤ → Type 0
IsOn true i k = k ≤ℤ i
IsOn false i k = i ≤ℤ k

-- An array that the search reaches from a bin: it lies on the side of the direction and strictly
-- between the ends of the bitmaps, and there is a bin ahead.
pub record IsReached (swap_for_y : Bool) (b k : ℤ) : Type 0 where
  pub below : k <ℤ pos 6655
  pub above : negsuc 6655 <ℤ k
  pub on : IsOn swap_for_y (bin_id_to_bin_array_index b) k
  pub ahead_one : 1 ≤ bins_ahead swap_for_y b

false_true : {A : Type 0} → false ≡ true → A
false_true h = grind (arith, h)

module _ (pair : LbPair) (extension : BinArrayBitmapExtension) (arrays : List BinArray)
    (m : IsMarket pair extension arrays) where
  abbrev bits : ℤ → Bool
  bits = has_liquidity pair extension

  pos_below : (n : ℕ) → bits (pos n) ≡ true → n < 6655
  pos_below n set = elim (Bool-cases (leb 6655 n)) [
    | inl c ↦ elim (Bool-cases (n == 6655)) [
      | inl e ↦
          false_true (sym (subst (λ j. bits (pos j) ≡ false) (sym (==→eq n 6655 e)) m.top) ∙ set)
      | inr e ↦ false_true (sym (beyond_pos pair extension m.shape n (ground arith)) ∙ set)
    ]
    | inr c ↦ leb-false→lt 6655 n c
  ]

  negsuc_below : (n : ℕ) → bits (negsuc n) ≡ true → n < 6655
  negsuc_below n set = elim (Bool-cases (leb 6655 n)) [
    | inl c ↦ elim (Bool-cases (n == 6655)) [
      | inl e ↦
          false_true
            (sym (subst (λ j. bits (negsuc j) ≡ false) (sym (==→eq n 6655 e)) m.bottom) ∙ set)
      | inr e ↦ false_true (sym (beyond_negsuc pair extension m.shape n (ground arith)) ∙ set)
    ]
    | inr c ↦ leb-false→lt 6655 n c
  ]

  -- An array with liquidity lies strictly between the ends of the bitmaps.
  pub set_between : (k : ℤ) → bits k ≡ true → (k <ℤ pos 6655) × (negsuc 6655 <ℤ k)
  set_between (pos n) set = let h = pos_below n set in (omega (arith, h), omega arith)
  set_between (negsuc n) set = let h = negsuc_below n set in (omega arith, omega (arith, h))

  pub nearest-IsReached :
      (y : Bool) (b k : ℤ)
      → IsNearest bits y (bin_id_to_bin_array_index b) (some k)
      → IsReached y b k
  unfolding IsNearest
  nearest-IsReached true b k (d, at, set, _) =
      let i = bin_id_to_bin_array_index b in
      let e : k ≡ i -ℤ pos d = at ∙ ahead_down i d in
      let (below, above) = set_between k set in
      let parts = parts_of_eq k (i -ℤ pos d) e in
      record {
        below = below;
        above = above;
        on = omega (int_laws, parts);
        ahead_one = omega (int_laws, above, bin_array_index_parts b, parts);
      }
  nearest-IsReached false b k (d, at, set, _) =
      let i = bin_id_to_bin_array_index b in
      let e : k ≡ i +ℤ pos d = at ∙ ahead_up i d in
      let (below, above) = set_between k set in
      let parts = parts_of_eq k (i +ℤ pos d) e in
      record {
        below = below;
        above = above;
        on = omega (int_laws, parts);
        ahead_one = omega (int_laws, below, bin_array_index_parts b, parts);
      }

  pub index_in_range :
      (b : ℤ)
      → IsInBitmaps b
      → (negsuc 6655 ≤ℤ bin_id_to_bin_array_index b) × (bin_id_to_bin_array_index b ≤ℤ pos 6655)
  index_in_range b (lo, hi) =
      let parts = bin_array_index_parts b in
      let one = parts_exclusive (bin_id_to_bin_array_index b) in
      (omega (arith, lo, hi, parts, one), omega (arith, lo, hi, parts, one))

  next_bin-IsInBitmaps :
      (y : Bool) (b : ℤ) → IsInBitmaps b → 1 ≤ bins_ahead y b → IsInBitmaps (next_bin y b)
  next_bin-IsInBitmaps true b (lo, hi) h =
      (omega (int_laws, lo, hi, h), omega (int_laws, lo, hi, h))
  next_bin-IsInBitmaps false b (lo, hi) h =
      (omega (int_laws, lo, hi, h), omega (int_laws, lo, hi, h))

  fewer_ahead :
      (y : Bool) (b : ℤ)
      → IsInBitmaps b
      → 1 ≤ bins_ahead y b
      → bins_ahead y (next_bin y b) < bins_ahead y b
  fewer_ahead true b (lo, hi) h = omega (int_laws, lo, hi, h)
  fewer_ahead false b (lo, hi) h = omega (int_laws, lo, hi, h)

  -- The bin beside is within the bitmaps and has fewer bins ahead.
  pub beside :
      (y : Bool) (b b' : ℤ)
      → b' ≡ next_bin y b
      → IsInBitmaps b
      → 1 ≤ bins_ahead y b
      → IsInBitmaps b' × (bins_ahead y b' < bins_ahead y b)
  beside y b b' moved inside one =
      subst (λ c. IsInBitmaps c × (bins_ahead y c < bins_ahead y b)) (sym moved)
        (next_bin-IsInBitmaps y b inside one, fewer_ahead y b inside one)
