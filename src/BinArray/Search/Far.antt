-- ===== src/BinArray/Search/Far.antt =====
-- binArray.ts, one round of the search from an index beyond the default bitmap.
use mathlib.Core.Path.{subst}
use dlmm_sdk.Prelude.{
  ℕ, ◌+◌, ◌-◌, ◌≤◌, ◌<◌, ◌≡◌, refl, sym, ap, ◌∙◌, arith, Bool, true, false, none, some, ok,
  Bool-cases, inl, inr, leb→le, le→leb, ◌>>=◌,
}
use dlmm_sdk.Prelude.Int.{
  ℤ, pos, negsuc, pos_part, neg_part, ◌+ℤ◌, ◌-ℤ◌, ◌≤ℤ◌, nat_abs, int_laws, leb_ℤ,
}
use dlmm_sdk.Pair.{LbPair, BinArrayBitmapExtension}
use dlmm_sdk.BinArray.Bitmap.{find_set_bit, is_overflow_default_bin_array_bitmap, extension_bit}
use dlmm_sdk.BinArray.Bitmap.Scan.{
  ahead, ahead_up, ahead_down, ahead_zero, ClearBelow-zero, find_along, find_along-FirstBelow,
  find_along_once,
}
use dlmm_sdk.BinArray.Search.{done, move, found_or, Round, extension_round, next_round}
use dlmm_sdk.BinArray.Search.Bits.{IsWellFormed, extension_bit_pos, extension_bit_negsuc}
use dlmm_sdk.BinArray.Search.Step.{IsLeg, on_path}

find_set_bit_up :
    (s e : ℤ) (k : ℕ) (extension : BinArrayBitmapExtension)
    → s ≤ℤ e
    → e -ℤ s ≡ pos k
    → find_set_bit s e extension ≡ find_along false extension (k + 1) s
unfolding find_set_bit find_along
find_set_bit_up s e k extension h r =
    rw (le→leb (pos_part s + neg_part e) (pos_part e + neg_part s) h, r)

one_round :
    (extension : BinArrayBitmapExtension) (s : ℤ)
    → find_along false extension 1 s ≡ find_along true extension 1 s
one_round extension s = find_along_once false extension s ∙ sym (find_along_once true extension s)

find_downwards :
    (s e : ℤ) (k : ℕ) (extension : BinArrayBitmapExtension)
    → s -ℤ e ≡ pos k
    → leb_ℤ s e ≡ false
    → find_set_bit s e extension ≡ find_along true extension (k + 1) s
unfolding find_set_bit find_along
find_downwards s e k extension r c = rw (c, r)

find_set_bit_down :
    (s e : ℤ) (k : ℕ) (extension : BinArrayBitmapExtension)
    → e ≤ℤ s
    → s -ℤ e ≡ pos k
    → find_set_bit s e extension ≡ find_along true extension (k + 1) s
find_set_bit_down s e k extension h r = elim (Bool-cases (leb_ℤ s e)) [
  | inl c ↦
      let le = leb→le (pos_part s + neg_part e) (pos_part e + neg_part s) c in
      let up : e -ℤ s ≡ pos 0 = omega (int_laws, h, le) in
      let none_left : pos k ≡ pos 0 = sym r ∙ omega (int_laws, h, le) in
      let once : k ≡ 0 = ap nat_abs none_left in
      find_set_bit_up s e 0 extension le up
      ∙ subst (λ n. find_along false extension 1 s ≡ find_along true extension (n + 1) s) (sym once)
          (one_round extension s)
  | inr c ↦ find_downwards s e k extension r c
]

module _ (pair : LbPair) (extension : BinArrayBitmapExtension)
    (w : IsWellFormed pair extension) where
  pos_up : (p n : ℕ) → pos p +ℤ pos n ≡ pos (p + n)
  pos_up p n = omega int_laws

  next_round_far :
      (down : Bool) (s : ℤ)
      → is_overflow_default_bin_array_bitmap s ≡ true
      → next_round down pair (some extension) s ≡ extension_round down extension s
  unfolding next_round
  next_round_far down s h = rw h

  far-IsLeg :
      (down : Bool) (s end : ℤ) (otherwise : Round) (bound : ℕ)
      → is_overflow_default_bin_array_bitmap s ≡ true
      → extension_round down extension s
        ≡ (do found ← find_set_bit s end extension; ok (found_or otherwise found))
      → find_set_bit s end extension ≡ find_along down extension bound s
      → ((n : ℕ)
          → n < bound
          → extension_bit extension (ahead down s n) ≡ ok (on_path pair extension w down s n))
      → IsLeg pair extension w down s otherwise bound
  far-IsLeg down s end otherwise bound far round search read =
      let (r, run, first) =
        find_along-FirstBelow down extension (on_path pair extension w down s) s bound 0 bound
          (omega arith) read (ClearBelow-zero _) in
      let from = search ∙ ap (find_along down extension bound) (sym (ahead_zero down s)) ∙ run in
      (
        r,
        next_round_far down s far
            ∙ round
            ∙ ap (λ q. q >>= (λ found. ok (found_or otherwise found))) from,
        first,
      )

  pos_is_far : (p : ℕ) → 512 ≤ p → is_overflow_default_bin_array_bitmap (pos p) ≡ true
  unfolding is_overflow_default_bin_array_bitmap
  pos_is_far p h = ground arith

  negsuc_is_far : (p : ℕ) → 512 ≤ p → is_overflow_default_bin_array_bitmap (negsuc p) ≡ true
  unfolding is_overflow_default_bin_array_bitmap
  negsuc_is_far p h = ground arith

  pub up_pos :
      (p : ℕ) → 512 ≤ p → p ≤ 6655 → IsLeg pair extension w false (pos p) (done none) (6655 - p + 1)
  unfolding extension_round
  up_pos p lo hi =
      let search =
        find_set_bit_up (pos p) (pos 6655) (6655 - p) extension (omega (arith, hi))
          (omega (int_laws, hi)) in
      far-IsLeg false (pos p) (pos 6655) (done none) (6655 - p + 1) (pos_is_far p lo) refl search
        (λ n h.
          let e : ahead false (pos p) n ≡ pos (p + n) = ahead_up (pos p) n ∙ pos_up p n in
          rw e
            (extension_bit_pos pair extension w (p + n) (omega (arith, lo)) (omega (arith, h, hi))))

  pub up_negsuc :
      (p : ℕ)
      → 512 ≤ p
      → p ≤ 6655
      → IsLeg pair extension w false (negsuc p) (move (negsuc 511)) (p - 512 + 1)
  unfolding extension_round ◌-ℤ◌
  up_negsuc p lo hi =
      let search =
        find_set_bit_up (negsuc p) (negsuc 512) (p - 512) extension (omega (arith, lo))
          (omega (int_laws, lo)) in
      far-IsLeg false (negsuc p) (negsuc 512) (move (negsuc 511)) (p - 512 + 1) (negsuc_is_far p lo)
        refl search
        (λ n h.
          let step : negsuc p +ℤ pos n ≡ negsuc (p - n) = omega (int_laws, lo, h) in
          let e : ahead false (negsuc p) n ≡ negsuc (p - n) = ahead_up (negsuc p) n ∙ step in
          rw e (
            extension_bit_negsuc pair extension w (p - n) (omega (arith, lo, h))
              (omega (arith, hi))))

  pub down_pos :
      (p : ℕ)
      → 512 ≤ p
      → p ≤ 6655
      → IsLeg pair extension w true (pos p) (move (pos 511)) (p - 512 + 1)
  unfolding extension_round ◌-ℤ◌
  down_pos p lo hi =
      let search =
        find_set_bit_down (pos p) (pos 512) (p - 512) extension (omega (arith, lo))
          (omega (int_laws, lo)) in
      far-IsLeg true (pos p) (pos 512) (move (pos 511)) (p - 512 + 1) (pos_is_far p lo) refl search
        (λ n h.
          let step : pos p -ℤ pos n ≡ pos (p - n) = omega (int_laws, lo, h) in
          let e : ahead true (pos p) n ≡ pos (p - n) = ahead_down (pos p) n ∙ step in
          rw e
            (extension_bit_pos pair extension w (p - n) (omega (arith, lo, h)) (omega (arith, hi))))

  pub down_negsuc :
      (p : ℕ)
      → 512 ≤ p
      → p ≤ 6655
      → IsLeg pair extension w true (negsuc p) (done none) (6655 - p + 1)
  unfolding extension_round
  down_negsuc p lo hi =
      let search =
        find_set_bit_down (negsuc p) (negsuc 6655) (6655 - p) extension (omega (arith, hi))
          (omega (int_laws, hi)) in
      far-IsLeg true (negsuc p) (negsuc 6655) (done none) (6655 - p + 1) (negsuc_is_far p lo) refl
        search
        (λ n h.
          let step : negsuc p -ℤ pos n ≡ negsuc (p + n) = omega int_laws in
          let e : ahead true (negsuc p) n ≡ negsuc (p + n) = ahead_down (negsuc p) n ∙ step in
          rw e (
            extension_bit_negsuc pair extension w (p + n) (omega (arith, lo))
              (omega (arith, h, hi))))
