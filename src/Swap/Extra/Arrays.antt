-- ===== src/Swap/Extra/Arrays.antt =====
-- index.ts, the loop for the extra bin arrays: termination and which arrays it gives.
use dlmm_sdk.Prelude.{
  ℕ, ◌+◌, ◌-◌, ◌*◌, ◌≤◌, ◌<◌, ◌≡◌, inl, inr, refl, arith, Bool, true, false, ◌==◌, some, List, [],
  ◌∷◌, ◌++◌, All, All-append, length, length-append, ok, Bool-cases,
}
use dlmm_sdk.Prelude.Int.{ℤ, pos, pos_part, neg_part, eqb_ℤ, int_laws, *ℤ_parts}
use dlmm_sdk.Pair.{BinArray, BinArrayBitmapExtension, LbPair}
use dlmm_sdk.BinArray.{get_bin_array_lower_upper_bin_id}
use dlmm_sdk.BinArray.Index.{bin_array_index_parts}
use dlmm_sdk.Swap.{has_key, next_bin}
use dlmm_sdk.Swap.Extra.{ExtraArrays, bin_beyond, extra_round, collector, extra_loop}
use dlmm_sdk.Swap.Extra.Keys.{AreDistinct, AreDistinct-append}
use dlmm_sdk.Swap.Market.{IsMarket, bins_ahead, IsInBitmaps, IsReached, beside}
use dlmm_sdk.Swap.Walk.{Keeps, walk_ends}

-- An array that lies behind a bin.
abbrev IsPassed : Bool → ℤ → ℤ → Type 0
IsPassed true b j = pos_part b + 70 * neg_part j < 70 * pos_part j + neg_part b
IsPassed false b j = 70 * pos_part j + neg_part b + 70 ≤ pos_part b + 70 * neg_part j

beyond-parts : (y : Bool) (k : ℤ) → IsPassed y (bin_beyond y k) k
unfolding get_bin_array_lower_upper_bin_id bin_beyond
beyond-parts true k = omega (int_laws, *ℤ_parts k (pos 70))
beyond-parts false k = omega (int_laws, *ℤ_parts k (pos 70))

beyond-ahead :
    (y : Bool) (b k : ℤ)
    → IsInBitmaps b
    → IsReached y b k
    → IsInBitmaps (bin_beyond y k) × (bins_ahead y (bin_beyond y k) < bins_ahead y b)
unfolding get_bin_array_lower_upper_bin_id bin_beyond
beyond-ahead true b k inside r =
    let (lo, hi) = inside in
    let k_lo = r.above in
    let k_on = r.on in
    (
      (
        omega (int_laws, bin_array_index_parts b, *ℤ_parts k (pos 70), k_lo),
        omega (int_laws, bin_array_index_parts b, *ℤ_parts k (pos 70), k_on, hi),
      ),
      omega (int_laws, bin_array_index_parts b, *ℤ_parts k (pos 70), k_lo, k_on, lo, hi),
    )
beyond-ahead false b k inside r =
    let (lo, hi) = inside in
    let k_hi = r.below in
    let k_on = r.on in
    (
      (
        omega (int_laws, bin_array_index_parts b, *ℤ_parts k (pos 70), k_on, lo),
        omega (int_laws, bin_array_index_parts b, *ℤ_parts k (pos 70), k_hi),
      ),
      omega (int_laws, bin_array_index_parts b, *ℤ_parts k (pos 70), k_hi, k_on, lo, hi),
    )

-- What is passed stays passed, and an array that is reached later was not passed.
IsPassed-on :
    (y : Bool) (b c j : ℤ)
    → IsInBitmaps b
    → IsInBitmaps c
    → bins_ahead y c < bins_ahead y b
    → IsPassed y b j
    → IsPassed y c j
IsPassed-on true b c j (bl, bh) (cl, ch) fewer p = omega (arith, bl, bh, cl, ch, fewer, p)
IsPassed-on false b c j (bl, bh) (cl, ch) fewer p = omega (arith, bl, bh, cl, ch, fewer, p)

IsReached-apart : (y : Bool) (b j k : ℤ) → IsPassed y b j → IsReached y b k → eqb_ℤ j k ≡ false
IsReached-apart true b j k p r = let on = r.on in ground (arith, bin_array_index_parts b, p, on)
IsReached-apart false b j k p r = let on = r.on in ground (arith, bin_array_index_parts b, p, on)

none_reached :
    (y : Bool) (b k : ℤ) (extra : List ℤ)
    → All (λ j. IsPassed y b j) extra
    → IsReached y b k
    → has_key extra k ≡ false
unfolding has_key
none_reached y b k [] p r = refl
none_reached y b k (j ∷ extra) (own, p) r =
    rw (IsReached-apart y b j k own r) (none_reached y b k extra p r)

All-IsPassed_on :
    (y : Bool) (b c : ℤ) (extra : List ℤ)
    → IsInBitmaps b
    → IsInBitmaps c
    → bins_ahead y c < bins_ahead y b
    → All (λ j. IsPassed y b j) extra
    → All (λ j. IsPassed y c j) extra
All-IsPassed_on y b c [] _ _ _ _ = tt
All-IsPassed_on y b c (j ∷ extra) bi ci fewer (own, p) =
    (IsPassed-on y b c j bi ci fewer own, All-IsPassed_on y b c extra bi ci fewer p)

-- What the rounds keep.
pub record AreExtra (y : Bool) (max_extra : ℕ) (used : List ℤ) (f : ExtraArrays) : Type 0 where
  inside : IsInBitmaps f.active_id
  pub bounded : length f.extra_bin_arrays ≤ max_extra
  pub unused : All (λ j. has_key used j ≡ false) f.extra_bin_arrays
  pub distinct : AreDistinct f.extra_bin_arrays
  passed : All (λ j. IsPassed y f.active_id j) f.extra_bin_arrays

module _ (pair : LbPair) (extension : BinArrayBitmapExtension) (arrays : List BinArray)
    (m : IsMarket pair extension arrays) (y : Bool) (max_extra : ℕ) (used : List ℤ) where
  skip-AreExtra :
      (f : ExtraArrays) (b : ℤ)
      → AreExtra y max_extra used f
      → IsInBitmaps b
      → bins_ahead y b < bins_ahead y f.active_id
      → AreExtra y max_extra used (record f { active_id = b })
  skip-AreExtra f b e inside fewer = record {
    inside = inside;
    bounded = e.bounded;
    unused = e.unused;
    distinct = e.distinct;
    passed = All-IsPassed_on y f.active_id b f.extra_bin_arrays e.inside inside fewer e.passed;
  }

  push-AreExtra :
      (f : ExtraArrays) (k : ℤ)
      → AreExtra y max_extra used f
      → length f.extra_bin_arrays < max_extra
      → IsReached y f.active_id k
      → has_key used k ≡ false
      → AreExtra y max_extra used
          (record { active_id = bin_beyond y k; extra_bin_arrays = f.extra_bin_arrays ++ k ∷ [] })
  push-AreExtra f k e room reach absent =
      let extra = f.extra_bin_arrays in
      let (inside, fewer) = beyond-ahead y f.active_id k e.inside reach in
      let still =
        All-IsPassed_on y f.active_id (bin_beyond y k) extra e.inside inside fewer e.passed in
      record {
        inside = inside;
        bounded = omega (arith, length-append extra (k ∷ []), room);
        unused = All-append (λ j. has_key used j ≡ false) extra (k ∷ []) e.unused (absent, tt);
        distinct =
            AreDistinct-append extra k e.distinct
              (none_reached y f.active_id k extra e.passed reach);
        passed =
            All-append (λ j. IsPassed y (bin_beyond y k) j) extra (k ∷ []) still
              (beyond-parts y k, tt);
      }

  room_left :
      (f : ExtraArrays)
      → max_extra - length f.extra_bin_arrays == 0 ≡ false
      → length f.extra_bin_arrays < max_extra
  room_left f left = ground arith

  collector-Keeps :
      Keeps pair extension arrays m (collector y max_extra used) y (AreExtra y max_extra used)
  unfolding collector extra_round
  collector-Keeps f arr e left inside priced reach = elim (Bool-cases (has_key used arr.index)) [
    | inl h ↦
        let b = f.active_id in
        let (still, fewer) =
          beside pair extension arrays m y b (next_bin y b) refl inside reach.ahead_one in
        (
          record f { active_id = next_bin y b },
          rw h,
          skip-AreExtra f (next_bin y b) e still fewer,
          inr (still, fewer),
        )
    | inr h ↦
        let pushed : ExtraArrays = record {
          active_id = bin_beyond y arr.index;
          extra_bin_arrays = f.extra_bin_arrays ++ arr.index ∷ [];
        } in
        (
          pushed,
          rw h,
          push-AreExtra f arr.index e (room_left f left) reach h,
          inr (beyond-ahead y f.active_id arr.index inside reach),
        )
  ]

  -- With the accounts of a pair in shape, and enough fuel for the bins from the active one to the end
  -- of the bitmaps, the loop for the extra arrays returns at most as many as are asked for, all
  -- different and none of them among the arrays that the swap uses.
  pub extra_loop_ends :
      (fuel : ℕ) (b : ℤ)
      → IsInBitmaps b
      → bins_ahead y b + 1 < fuel
      → (g : ExtraArrays) × (extra_loop fuel y max_extra used pair
            (some extension)
            arrays
            (record { active_id = b; extra_bin_arrays = [] })
          ≡ some (ok g))
        × AreExtra y max_extra used g
  unfolding extra_loop collector
  extra_loop_ends fuel b inside enough =
      let start : ExtraArrays = record { active_id = b; extra_bin_arrays = [] } in
      let empty : AreExtra y max_extra used start = record {
        inside = inside;
        bounded = omega arith;
        unused = tt;
        distinct = tt;
        passed = tt;
      } in
      let (g, extra, end) =
        walk_ends pair extension arrays m (collector y max_extra used) y (AreExtra y max_extra used)
          collector-Keeps fuel start empty inside enough in
      elim end [ inl (run, _) ↦ (g, run, extra) | inr run ↦ (g, run, extra) ]
