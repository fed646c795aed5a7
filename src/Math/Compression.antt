-- ===== src/Math/Compression.antt =====
-- math.ts, the compression of amounts: `compressBinAmount`, `findOptimumDecompressMultiplier` and
-- `distributeAmountToCompressedBinsByRatio`. A `Map` is the list of its entries in insertion order.
pub mod Laws
pub mod Distribution
use dlmm_sdk.Prelude.{
  ℕ, zero, suc, ◌+◌, ◌-◌, ◌*◌, ◌/◌, ◌%◌, ◌^◌, Bool, true, false, ◌==◌, ltb, if◌then◌else◌, Option,
  none, some, List, [], ◌∷◌, Result, ok, err, Error, assertion_failed, optimum_multiplier_not_found,
  ◌>>=◌, sum_of,
}
use dlmm_sdk.Prelude.Int.{ℤ, pos, ◌+ℤ◌, ◌-ℤ◌, ◌*ℤ◌, ltb_ℤ}

-- An entry of a `Map<number, BN>` from bin ids to amounts.
abbrev pub Entry : Type 0
Entry = ℤ × ℕ

abbrev pub amount_of : Entry → ℕ
amount_of e = e.1

-- The loop of `compressBinAmount`: the compressed entries and the loss.
unfoldable pub compress_bin_amount : List Entry → ℕ → Result (List Entry × ℕ)
compress_bin_amount [] multiplier = ok ([], 0)
compress_bin_amount ((bin_id, amount) ∷ rest) multiplier =
    if multiplier == 0 then err assertion_failed else (do
      (compressed, loss) ← compress_bin_amount rest multiplier
      ok (
        (bin_id, amount / multiplier) ∷ compressed,
        (amount - amount / multiplier * multiplier) + loss,
      ))

-- The inner loop: no amount is compressed to zero.
pub all_representable : List Entry → ℕ → Bool
all_representable [] multiplier = true
all_representable ((bin_id, amount) ∷ rest) multiplier =
    if amount / multiplier == 0 then false else all_representable rest multiplier

-- The outer loop, on fuel; `none` means that the fuel ran out.
pub search_multiplier : ℕ → List Entry → ℕ → Option (Result ℕ)
unfolding all_representable
search_multiplier zero amounts multiplier = none
search_multiplier (suc fuel) amounts multiplier =
    let rest = search_multiplier fuel amounts (multiplier / 10) in
    if multiplier == 0
    then some (err optimum_multiplier_not_found)
    else if all_representable amounts multiplier
    then some (ok multiplier)
    else rest

unfoldable pub find_optimum_decompress_multiplier : List Entry → ℕ → Option (Result ℕ)
unfolding search_multiplier
find_optimum_decompress_multiplier amounts token_decimal =
    search_multiplier (token_decimal + 2) amounts (10 ^ token_decimal)

total_amount : List Entry → ℕ
total_amount = sum_of amount_of

-- The loop of `distributeAmountToCompressedBinsByRatio`: the new entries and the total deposited.
-- A bin that is over the cap before the deposit has a negative deposit, hence the integers.
pub distribute_loop : List Entry → (amount multiplier bin_cap total : ℕ) → Result (List Entry × ℤ)
distribute_loop [] amount multiplier bin_cap total = ok ([], pos 0)
distribute_loop ((bin_id, compressed) ∷ rest) amount multiplier bin_cap total =
    if total == 0
    then err assertion_failed
    else if multiplier == 0
    then err assertion_failed
    else (let deposit = compressed * amount / total / multiplier in
        let new = compressed + deposit in
        let capped = if ltb bin_cap new then bin_cap else new in
        let deposited =
          if ltb bin_cap new then pos deposit -ℤ (pos new -ℤ pos bin_cap) else pos deposit in
        do
          (entries, sum) ← distribute_loop rest amount multiplier bin_cap total
          ok ((bin_id, capped) ∷ entries, deposited *ℤ pos multiplier +ℤ sum))

unfoldable pub distribute_amount_to_compressed_bins_by_ratio :
    List Entry → (amount multiplier bin_cap : ℕ) → Result (List Entry × ℤ)
unfolding distribute_loop total_amount
distribute_amount_to_compressed_bins_by_ratio entries amount multiplier bin_cap = do
  (new, deposited) ← distribute_loop entries amount multiplier bin_cap (total_amount entries)
  ok (new, pos amount -ℤ deposited)
