-- ===== src/BinArray/Search/Step.antt =====
-- binArray.ts, one round of the search from an index of the default bitmap.
use dlmm_sdk.Prelude.{
  ℕ, suc, ◌+◌, ◌-◌, ◌*◌, ◌/◌, ◌^◌, ◌≤◌, ◌<◌, ◌≡◌, refl, sym, ap, ◌∙◌, arith, Bool, true, false,
  Option, none, some, ok, Bool-cases, inl, inr, ltb, ltb→lt, ltb-false→le,
}
use dlmm_sdk.Prelude.Int.{ℤ, pos, negsuc, ◌+ℤ◌, ◌-ℤ◌, nat_abs, int_laws}
use dlmm_sdk.Prelude.Numbers.{testn, testn-div, testn-mul, testn-mul_low}
use dlmm_sdk.Pair.{LbPair, BinArrayBitmapExtension}
use dlmm_sdk.BinArray.Bitmap.{
  most_significant_bit, least_significant_bit, build_bitmap_from_u64_arrays, bits_of,
  is_overflow_default_bin_array_bitmap,
}
use dlmm_sdk.BinArray.Bitmap.Words.{testn-build_beyond}
use dlmm_sdk.BinArray.Bitmap.Scan.{
  ahead, ClearBelow, FirstBelow, FirstBelow-ext, least_significant_bit-FirstBelow,
  most_significant_bit-FirstBelow, index_at,
}
use dlmm_sdk.BinArray.Search.{move, found_or, Round, internal_round, next_round, left_of, right_of}
use dlmm_sdk.BinArray.Search.Bits.{has_liquidity, IsWellFormed, has_liquidity-place, place}

FirstBelow-trim :
    (f : ℕ → Bool) (bound smaller : ℕ) (r : Option ℕ)
    → smaller ≤ bound
    → ((n : ℕ) → smaller ≤ n → n < bound → f n ≡ false)
    → FirstBelow f bound r
    → FirstBelow f smaller r
unfolding FirstBelow ClearBelow
FirstBelow-trim f bound smaller none le out clear =
    λ n. elim (clear n) [ inl h ↦ inl (omega (arith, h, le)) | inr h ↦ inr h ]
FirstBelow-trim f bound smaller (some d) le out (lt, set, clear) = (
  elim (Bool-cases (ltb d smaller)) [
    | inl h ↦ ltb→lt d smaller h
    | inr h ↦ grind (arith, sym (out d (ltb-false→le d smaller h) lt) ∙ set)
  ],
  set,
  clear,
)

module _ (pair : LbPair) (extension : BinArrayBitmapExtension)
    (w : IsWellFormed pair extension) where
  abbrev bitmap : ℕ
  bitmap = build_bitmap_from_u64_arrays pair.bin_array_bitmap

  -- What lies ahead of a start.
  abbrev pub on_path : Bool → ℤ → ℕ → Bool
  on_path down s n = has_liquidity pair extension (ahead down s n)

  internal_up_first :
      (o : ℕ)
      → o < 1024
      → FirstBelow
          (on_path false (place o))
          (1024 - o)
          (least_significant_bit (bitmap / 2 ^ o) 1024)
  unfolding ahead place
  internal_up_first o h =
      let found = least_significant_bit-FirstBelow (bitmap / 2 ^ o) 1024 in
      let out : (n : ℕ) → 1024 - o ≤ n → n < 1024 → testn (bitmap / 2 ^ o) n ≡ false = λ n le lt.
        testn-div bitmap o n
        ∙ testn-build_beyond pair.bin_array_bitmap (o + n) w.words
            (omega (arith, w.sixteen, h, le)) in
      let same : (n : ℕ) → n < 1024 - o → testn (bitmap / 2 ^ o) n ≡ on_path false (place o) n =
        λ n lt.
          let e : pos o -ℤ pos 512 +ℤ pos n ≡ pos (o + n) -ℤ pos 512 = omega int_laws in
          testn-div bitmap o n
          ∙ has_liquidity-place pair extension w (o + n) (omega (arith, h, lt))
          ∙ ap (has_liquidity pair extension) (sym e) in
      FirstBelow-ext (testn (bitmap / 2 ^ o)) _ (1024 - o) _ same
        (FirstBelow-trim _ 1024 (1024 - o) _ (omega arith) out found)

  internal_down_first :
      (o : ℕ)
      → o < 1024
      → FirstBelow
          (on_path true (place o))
          (suc o)
          (most_significant_bit (bitmap * 2 ^ (1023 - o)) 1024)
  unfolding ahead place
  internal_down_first o h =
      let shifted = bitmap * 2 ^ (1023 - o) in
      let found = most_significant_bit-FirstBelow shifted 1023 in
      let out : (n : ℕ) → suc o ≤ n → n < 1024 → testn shifted (1023 - n) ≡ false =
        λ n le lt. testn-mul_low bitmap (1023 - o) (1023 - n) (omega (arith, le, lt)) in
      let same : (n : ℕ) → n < suc o → testn shifted (1023 - n) ≡ on_path true (place o) n = λ n lt.
        let k : 1023 - n ≡ 1023 - o + (o - n) = omega (arith, h, lt) in
        let e : pos o -ℤ pos 512 -ℤ pos n ≡ pos (o - n) -ℤ pos 512 = omega (int_laws, lt) in
        ap (testn shifted) k
        ∙ testn-mul bitmap (1023 - o) (o - n)
        ∙ has_liquidity-place pair extension w (o - n) (omega (arith, h, lt))
        ∙ ap (has_liquidity pair extension) (sym e) in
      FirstBelow-ext (λ n. testn shifted (1023 - n)) _ (suc o) _ same
        (FirstBelow-trim _ 1024 (suc o) _ (omega (arith, h)) out found)

  abbrev pub outcome : Bool → ℤ → Round → Option ℕ → Round
  outcome down s otherwise r = found_or otherwise (index_at down s r)

  -- A round that finds the first index with liquidity within a bound, or else ends otherwise.
  abbrev pub IsLeg : Bool → ℤ → Round → ℕ → Type 0
  IsLeg down s otherwise bound =
      (r : Option ℕ) × (next_round down pair (some extension) s ≡ ok (outcome down s otherwise r))
      × FirstBelow (on_path down s) bound r

  place_is_internal : (o : ℕ) → o < 1024 → is_overflow_default_bin_array_bitmap (place o) ≡ false
  unfolding is_overflow_default_bin_array_bitmap place ◌-ℤ◌
  place_is_internal o h = ground arith

  offset_of_place : (o : ℕ) → nat_abs (place o +ℤ pos 512) ≡ o
  unfolding place
  offset_of_place o = let e : pos o -ℤ pos 512 +ℤ pos 512 ≡ pos o = omega int_laws in ap nat_abs e

  next_round_internal :
      (down : Bool) (s : ℤ)
      → is_overflow_default_bin_array_bitmap s ≡ false
      → next_round down pair (some extension) s ≡ ok (internal_round down pair s)
  unfolding next_round
  next_round_internal down s h = rw h

  right_found : (s : ℤ) (r : Option ℕ) → right_of s r ≡ outcome false s (move (pos 512)) r
  unfolding right_of ahead ◌+ℤ◌
  right_found s none = refl
  right_found s (some d) = refl

  left_found : (s : ℤ) (r : Option ℕ) → left_of s r ≡ outcome true s (move (negsuc 512)) r
  unfolding left_of ahead ◌-ℤ◌
  left_found s none = refl
  left_found s (some d) = refl

  internal_round_up :
      (o : ℕ)
      → internal_round false pair (place o)
        ≡ right_of (place o) (least_significant_bit (bitmap / 2 ^ o) 1024)
  unfolding internal_round bits_of
  internal_round_up o =
      ap (λ k. right_of (place o) (least_significant_bit (bitmap / 2 ^ k) 1024)) (offset_of_place o)

  internal_round_down :
      (o : ℕ)
      → internal_round true pair (place o)
        ≡ left_of (place o) (most_significant_bit (bitmap * 2 ^ (1023 - o)) 1024)
  unfolding internal_round bits_of
  internal_round_down o =
      ap (λ k. left_of (place o) (most_significant_bit (bitmap * 2 ^ (1023 - k)) 1024))
        (offset_of_place o)

  pub internal_up : (o : ℕ) → o < 1024 → IsLeg false (place o) (move (pos 512)) (1024 - o)
  internal_up o h = (
    _,
    next_round_internal false (place o) (place_is_internal o h)
        ∙ ap ok (internal_round_up o ∙ right_found (place o) _),
    internal_up_first o h,
  )

  pub internal_down : (o : ℕ) → o < 1024 → IsLeg true (place o) (move (negsuc 512)) (suc o)
  internal_down o h = (
    _,
    next_round_internal true (place o) (place_is_internal o h)
        ∙ ap ok (internal_round_down o ∙ left_found (place o) _),
    internal_down_first o h,
  )
