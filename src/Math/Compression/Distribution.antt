-- ===== src/Math/Compression/Distribution.antt =====
-- math.ts, `distributeAmountToCompressedBinsByRatio`: the cap and the loss.
use dlmm_sdk.Prelude.{
  ℕ, ◌+◌, ◌*◌, ◌/◌, ◌≤◌, ◌<◌, ◌≡◌, List, [], ◌∷◌, ok, arith, ltb, if◌then◌else◌, sum_of, All, refl,
  ap, pos_test,
}
use dlmm_sdk.Prelude.Int.{ℤ, pos, ◌+ℤ◌, ◌-ℤ◌, ◌*ℤ◌, int_laws, -ℤ_parts, *ℤ_parts}
use dlmm_sdk.Math.Compression.{
  Entry, amount_of, total_amount, distribute_loop, distribute_amount_to_compressed_bins_by_ratio,
}

sub-mul : (a b m : ℕ) → (pos a -ℤ pos b) *ℤ pos m ≡ pos (a * m) -ℤ pos (b * m)
sub-mul a b m =
    omega (
      int_laws,
      *ℤ_parts (pos a -ℤ pos b) (pos m),
      ap (λ (t : ℕ). t * m) (-ℤ_parts (pos a) (pos b)),
    )

-- In both branches the deposit is what the entry grows by.
deposit_growth :
    (c d bin_cap : ℕ)
    → (if ltb bin_cap (c + d) then pos d -ℤ (pos (c + d) -ℤ pos bin_cap) else pos d)
      ≡ pos (if ltb bin_cap (c + d) then bin_cap else c + d) -ℤ pos c
unfolding ◌-ℤ◌
deposit_growth c d bin_cap = ground arith

capped-le : (n bin_cap : ℕ) → (if ltb bin_cap n then bin_cap else n) ≤ bin_cap
capped-le n bin_cap = ground arith

-- The loop returns; each new entry is within the cap; what is deposited, times the multiplier, is the
-- growth of the entries.
IsDistributed : ℕ → ℕ → List Entry → List Entry → ℤ → Type 0
IsDistributed multiplier bin_cap old new deposited =
    All (λ e. e.1 ≤ bin_cap) new
    × (deposited
        ≡ pos (sum_of amount_of new * multiplier) -ℤ pos (sum_of amount_of old * multiplier))

distribute_loop-IsDistributed :
    (entries : List Entry) (amount multiplier bin_cap total : ℕ)
    → 0 < total
    → 0 < multiplier
    → (new : List Entry) × (deposited : ℤ) × (distribute_loop entries amount multiplier bin_cap
          total
        ≡ ok (new, deposited))
      × IsDistributed multiplier bin_cap entries new deposited
unfolding distribute_loop IsDistributed
distribute_loop-IsDistributed [] amount multiplier bin_cap total t m =
    ([], pos 0, refl, (tt, omega int_laws))
distribute_loop-IsDistributed ((b, c) ∷ rest) amount multiplier bin_cap total t m =
    let d = c * amount / total / multiplier in
    let capped = if ltb bin_cap (c + d) then bin_cap else c + d in
    let (new, deposited, e, held) =
      distribute_loop-IsDistributed rest amount multiplier bin_cap total t m in
    (
      (b, capped) ∷ new,
      (pos capped -ℤ pos c) *ℤ pos multiplier +ℤ deposited,
      rw (pos_test total t, pos_test multiplier m, e, deposit_growth c d bin_cap) refl,
      (
        (capped-le (c + d) bin_cap, held.0),
        rw (sub-mul capped c multiplier, held.1) (omega int_laws),
      ),
    )

-- If the compressed amounts are not all zero and the multiplier is not zero, the call returns; each
-- new entry is within the cap; and the loss with the growth of the entries, scaled by the multiplier,
-- is the amount to distribute.
pub distribute_amount_conserves :
    (entries : List Entry) (amount multiplier bin_cap : ℕ)
    → 0 < sum_of amount_of entries
    → 0 < multiplier
    → (new : List Entry) × (loss : ℤ) × (distribute_amount_to_compressed_bins_by_ratio entries
          amount multiplier bin_cap
        ≡ ok (new, loss))
      × All (λ e. e.1 ≤ bin_cap) new
      × (loss +ℤ pos (sum_of amount_of new * multiplier)
          ≡ pos amount +ℤ pos (sum_of amount_of entries * multiplier))
unfolding distribute_amount_to_compressed_bins_by_ratio IsDistributed
distribute_amount_conserves entries amount multiplier bin_cap t m =
    let (new, deposited, e, held) =
      distribute_loop-IsDistributed entries amount multiplier bin_cap (total_amount entries) t m in
    (new, pos amount -ℤ deposited, rw e, held.0, rw held.1 (omega int_laws))
