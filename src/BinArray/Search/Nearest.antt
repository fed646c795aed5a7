-- ===== src/BinArray/Search/Nearest.antt =====
-- binArray.ts, `findNextBinArrayIndexWithLiquidity`: its rounds together, and its result.
use mathlib.Core.Path.{subst}
use dlmm_sdk.Prelude.{
  ℕ, suc, ◌+◌, ◌-◌, ◌≤◌, ◌<◌, ◌≡◌, refl, sym, ap, ◌∙◌, inl, inr, arith, Bool, true, false, Option,
  none, some, ok, Bool-cases, leb, leb→le, leb-false→lt,
}
use dlmm_sdk.Prelude.Int.{ℤ, pos, negsuc, ◌≤ℤ◌, ◌-ℤ◌, ◌+ℤ◌, int_laws}
use dlmm_sdk.Pair.{LbPair, BinArrayBitmapExtension}
use dlmm_sdk.BinArray.{bin_id_to_bin_array_index}
use dlmm_sdk.BinArray.Bitmap.Scan.{ahead, ahead_up, ahead_down, ahead_add, ClearBelow, FirstBelow}
use dlmm_sdk.BinArray.Search.{
  done, move, Round, next_round, after_round, search_from, find_next_bin_array_index_with_liquidity,
}
use dlmm_sdk.BinArray.Search.Bits.{has_liquidity, IsWellFormed, place, beyond_pos, beyond_negsuc}
use dlmm_sdk.BinArray.Search.Step.{IsLeg, on_path, internal_up, internal_down}
use dlmm_sdk.BinArray.Search.Far.{up_pos, up_negsuc, down_pos, down_negsuc}

-- The result is the first index with liquidity from the start on, in the direction; without a
-- result there is none.
unfoldable pub IsNearest : (ℤ → Bool) → Bool → ℤ → Option ℤ → Type 0
IsNearest bits down s none = (n : ℕ) → bits (ahead down s n) ≡ false
IsNearest bits down s (some k) =
    (d : ℕ) × (k ≡ ahead down s d) × (bits k ≡ true) × ClearBelow (λ n. bits (ahead down s n)) d

-- An index of a search from a later start is nearest also from the first, where nothing lies between.
IsNearest-further :
    (bits : ℤ → Bool) (down : Bool) (s : ℤ) (a : ℕ) (r : Option ℤ)
    → ClearBelow (λ n. bits (ahead down s n)) a
    → IsNearest bits down (ahead down s a) r
    → IsNearest bits down s r
unfolding IsNearest ClearBelow
IsNearest-further bits down s a none clear rest = λ n. elim (clear n) [
  | inl le ↦
      let e : a + (n - a) ≡ n = omega (arith, le) in
      ap bits (ap (ahead down s) (sym e) ∙ sym (ahead_add down s a (n - a))) ∙ rest (n - a)
  | inr h ↦ h
]
IsNearest-further bits down s a (some k) clear (d, at, set, nearer) = (
  a + d,
  at ∙ ahead_add down s a d,
  set,
  λ n. elim (clear n) [
    | inl le ↦
        let e : a + (n - a) ≡ n = omega (arith, le) in
        let on = ap bits (ap (ahead down s) (sym e) ∙ sym (ahead_add down s a (n - a))) in
        elim (nearer (n - a)) [ inl far ↦ inl (omega (arith, far, le)) | inr h ↦ inr (on ∙ h) ]
    | inr h ↦ inr h
  ],
)

module _ (pair : LbPair) (extension : BinArrayBitmapExtension)
    (w : IsWellFormed pair extension) where
  -- The search ends with the nearest index, on this much fuel.
  abbrev Ends : ℕ → Bool → ℤ → Type 0
  Ends fuel down s =
      (r : Option ℤ) × (search_from fuel down pair (some extension) s ≡ some (ok r))
      × IsNearest (has_liquidity pair extension) down s r

  search_step :
      (fuel : ℕ) (down : Bool) (s : ℤ) {round : Round}
      → next_round down pair (some extension) s ≡ ok round
      → search_from (suc fuel) down pair (some extension) s
        ≡ after_round (ok round) (λ i. search_from fuel down pair (some extension) i)
  unfolding search_from
  search_step fuel down s step =
      ap (λ q. after_round q (λ i. search_from fuel down pair (some extension) i)) step

  go_on :
      (fuel : ℕ) (down : Bool) (s i : ℤ) (bound : ℕ)
      → IsLeg pair extension w down s (move i) bound
      → i ≡ ahead down s bound
      → Ends fuel down i
      → Ends (suc fuel) down s
  unfolding FirstBelow IsNearest
  go_on fuel down s i bound (none, step, clear) e (r, run, nearest) =
      let at = subst (λ j. IsNearest (has_liquidity pair extension) down j r) e nearest in
      (
        r,
        search_step fuel down s step ∙ run,
        IsNearest-further (has_liquidity pair extension) down s bound r clear at,
      )
  go_on fuel down s i bound (some d, step, (lt, set, clear)) e _ =
      (some (ahead down s d), search_step fuel down s step, (d, refl, set, clear))

  stop :
      (fuel : ℕ) (down : Bool) (s : ℤ) (bound : ℕ)
      → IsLeg pair extension w down s (done none) bound
      → ((n : ℕ) → bound ≤ n → on_path pair extension w down s n ≡ false)
      → Ends (suc fuel) down s
  unfolding FirstBelow IsNearest ClearBelow
  stop fuel down s bound (none, step, clear) beyond =
      (none, search_step fuel down s step, λ n. elim (clear n) [ inl le ↦ beyond n le | inr h ↦ h ])
  stop fuel down s bound (some d, step, (lt, set, clear)) beyond =
      (some (ahead down s d), search_step fuel down s step, (d, refl, set, clear))

  down_far : (fuel p : ℕ) → 512 ≤ p → p ≤ 6655 → Ends (suc fuel) true (negsuc p)
  down_far fuel p lo hi =
      stop fuel true (negsuc p) (6655 - p + 1) (down_negsuc pair extension w p lo hi) (λ n h.
        let e : negsuc p -ℤ pos n ≡ negsuc (p + n) = omega int_laws in
        ap (has_liquidity pair extension) (ahead_down (negsuc p) n ∙ e)
        ∙ beyond_negsuc pair extension w (p + n) (omega (arith, h, hi)))

  up_far : (fuel p : ℕ) → 512 ≤ p → p ≤ 6655 → Ends (suc fuel) false (pos p)
  up_far fuel p lo hi =
      stop fuel false (pos p) (6655 - p + 1) (up_pos pair extension w p lo hi) (λ n h.
        let e : pos p +ℤ pos n ≡ pos (p + n) = omega int_laws in
        ap (has_liquidity pair extension) (ahead_up (pos p) n ∙ e)
        ∙ beyond_pos pair extension w (p + n) (omega (arith, h, hi)))

  down_near : (fuel o : ℕ) → o < 1024 → Ends (suc (suc fuel)) true (place o)
  unfolding place
  down_near fuel o h =
      let e : negsuc 512 ≡ pos o -ℤ pos 512 -ℤ pos (suc o) = omega int_laws in
      go_on (suc fuel) true (place o) (negsuc 512) (suc o) (internal_down pair extension w o h)
        (e ∙ sym (ahead_down (place o) (suc o))) (down_far fuel 512 (omega arith) (omega arith))

  up_near : (fuel o : ℕ) → o < 1024 → Ends (suc (suc fuel)) false (place o)
  unfolding place
  up_near fuel o h =
      let e : pos 512 ≡ pos o -ℤ pos 512 +ℤ pos (1024 - o) = omega (int_laws, h) in
      go_on (suc fuel) false (place o) (pos 512) (1024 - o) (internal_up pair extension w o h)
        (e ∙ sym (ahead_up (place o) (1024 - o))) (up_far fuel 512 (omega arith) (omega arith))

  down_all : (p : ℕ) → 512 ≤ p → p ≤ 6655 → Ends 3 true (pos p)
  unfolding place
  down_all p lo hi =
      let e : pos 511 ≡ pos p -ℤ pos (p - 512 + 1) = omega (int_laws, lo) in
      let edge : pos 1023 -ℤ pos 512 ≡ pos 511 = omega int_laws in
      go_on 2 true (pos p) (pos 511) (p - 512 + 1) (down_pos pair extension w p lo hi)
        (e ∙ sym (ahead_down (pos p) (p - 512 + 1)))
        (subst (Ends 2 true) edge (down_near 0 1023 (omega arith)))

  up_all : (p : ℕ) → 512 ≤ p → p ≤ 6655 → Ends 3 false (negsuc p)
  unfolding place
  up_all p lo hi =
      let e : negsuc 511 ≡ negsuc p +ℤ pos (p - 512 + 1) = omega (int_laws, lo) in
      let edge : pos 0 -ℤ pos 512 ≡ negsuc 511 = omega int_laws in
      go_on 2 false (negsuc p) (negsuc 511) (p - 512 + 1) (up_negsuc pair extension w p lo hi)
        (e ∙ sym (ahead_up (negsuc p) (p - 512 + 1)))
        (subst (Ends 2 false) edge (up_near 0 0 (omega arith)))

  near : (down : Bool) (o : ℕ) → o < 1024 → Ends 3 down (place o)
  near true o h = down_near 1 o h
  near false o h = up_near 1 o h

  far_pos : (down : Bool) (p : ℕ) → 512 ≤ p → p ≤ 6655 → Ends 3 down (pos p)
  far_pos true p lo hi = down_all p lo hi
  far_pos false p lo hi = up_far 2 p lo hi

  far_negsuc : (down : Bool) (p : ℕ) → 512 ≤ p → p ≤ 6655 → Ends 3 down (negsuc p)
  far_negsuc true p lo hi = down_far 2 p lo hi
  far_negsuc false p lo hi = up_all p lo hi

  ends : (down : Bool) (s : ℤ) → negsuc 6655 ≤ℤ s → s ≤ℤ pos 6655 → Ends 3 down s
  unfolding place
  ends down (pos n) lo hi = elim (Bool-cases (leb 512 n)) [
    | inl c ↦ far_pos down n (leb→le 512 n c) (omega (arith, hi))
    | inr c ↦
        let e : pos (512 + n) -ℤ pos 512 ≡ pos n = omega int_laws in
        subst (Ends 3 down) e (near down (512 + n) (omega (arith, leb-false→lt 512 n c)))
  ]
  ends down (negsuc n) lo hi = elim (Bool-cases (leb 512 n)) [
    | inl c ↦ far_negsuc down n (leb→le 512 n c) (omega (arith, lo))
    | inr c ↦
        let small = leb-false→lt 512 n c in
        let e : pos (511 - n) -ℤ pos 512 ≡ negsuc n = omega (int_laws, small) in
        subst (Ends 3 down) e (near down (511 - n) (omega (arith, small)))
  ]

  -- With the accounts in shape, and from an active bin whose array lies within the bitmaps, the search
  -- terminates without an error within three rounds, and returns the first index with liquidity from
  -- the active array on, down when swapping for Y and up otherwise, or nothing when no array on that
  -- side has liquidity.
  pub find_next_bin_array-IsNearest :
      (swap_for_y : Bool) (active_id : ℤ)
      → negsuc 6655 ≤ℤ bin_id_to_bin_array_index active_id
      → bin_id_to_bin_array_index active_id ≤ℤ pos 6655
      → (r : Option ℤ) × (find_next_bin_array_index_with_liquidity swap_for_y active_id pair
            (some extension)
          ≡ some (ok r))
        × IsNearest
            (has_liquidity pair extension)
            swap_for_y
            (bin_id_to_bin_array_index active_id)
            r
  unfolding find_next_bin_array_index_with_liquidity
  find_next_bin_array-IsNearest swap_for_y active_id lo hi =
      ends swap_for_y (bin_id_to_bin_array_index active_id) lo hi
