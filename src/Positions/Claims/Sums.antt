-- ===== src/Positions/Claims/Sums.antt =====
-- positions/index.ts, `chunkPositionBinRange`: the sums over the chunks.
use dlmm_sdk.Prelude.{
  ℕ, ◌+◌, ◌≡◌, refl, ap, arith, true, ◌==◌, if◌then◌else◌, List, [], ◌∷◌, ◌++◌, sum_of, Bool-cases,
  inl, inr,
}
use dlmm_sdk.Prelude.Int.{ℤ, eqb_ℤ}
use dlmm_sdk.Positions.Claims.{
  PositionBinData, Totals, no_totals, is_in_range, add_bin, is_chunk_full, chunk_position_loop,
  chunk_position_bin_range,
}

-- What a bin counts for in the range.
abbrev pub counted : (PositionBinData → ℕ) → ℤ → ℤ → PositionBinData → ℕ
counted f min_bin_id max_bin_id b = if is_in_range min_bin_id max_bin_id b then f b else 0

-- A total of the loop that each bin of the range adds its part to, and that starts at zero.
pub record IsTotalOf (total : Totals → ℕ) (part : PositionBinData → ℕ) : Type 0 where
  pub starts : total no_totals ≡ 0
  pub adds :
      (lo hi : ℤ) (b : PositionBinData) (t : Totals)
      → total (add_bin lo hi b t) ≡ total t + counted part lo hi b

module _ (total : Totals → ℕ) (part : PositionBinData → ℕ) (sums : IsTotalOf total part)
    (lo hi : ℤ) where
  chunk_position_loop-sum :
      (bins : List PositionBinData) (t : Totals)
      → let result = chunk_position_loop lo hi bins t in
        sum_of (λ c. total c.totals) result.0 + total result.1
        ≡ total t + sum_of (counted part lo hi) bins
  unfolding chunk_position_loop
  chunk_position_loop-sum [] t = omega arith
  chunk_position_loop-sum (b ∷ bins) t =
      let added = add_bin lo hi b t in
      let more = sums.adds lo hi b t in
      let none_left = sums.starts in
      elim (Bool-cases (is_chunk_full hi b added)) [
        | inl full ↦
            let rest = chunk_position_loop-sum bins no_totals in
            rw full (omega (arith, rest, more, none_left))
        | inr open_chunk ↦
            let rest = chunk_position_loop-sum bins added in
            rw open_chunk (omega (arith, rest, more))
      ]

-- A bin at the end of the range closes the last chunk.
closed :
    (lo hi : ℤ) (bins : List PositionBinData) (last : PositionBinData) (t : Totals)
    → last.bin_id ≡ hi
    → (chunk_position_loop lo hi (bins ++ last ∷ []) t).1 ≡ no_totals
unfolding chunk_position_loop is_chunk_full
closed lo hi [] last t e =
    let at_end : eqb_ℤ last.bin_id hi ≡ true = ground (arith, e) in
    let added = add_bin lo hi last t in
    elim (Bool-cases (added.count == 70)) [ inl c ↦ rw (c) | inr c ↦ rw (c, at_end) ]
closed lo hi (b ∷ bins) last t e =
    let added = add_bin lo hi b t in
    elim (Bool-cases (is_chunk_full hi b added)) [
      | inl full ↦ rw full (closed lo hi bins last no_totals e)
      | inr open_chunk ↦ rw open_chunk (closed lo hi bins last added e)
    ]

amount_x-IsTotalOf : IsTotalOf (λ t. t.amount_x) (λ b. b.position_x_amount)
unfolding add_bin
amount_x-IsTotalOf = record { starts = refl; adds = λ lo hi b t. ground arith }

amount_y-IsTotalOf : IsTotalOf (λ t. t.amount_y) (λ b. b.position_y_amount)
unfolding add_bin
amount_y-IsTotalOf = record { starts = refl; adds = λ lo hi b t. ground arith }

fee_x-IsTotalOf : IsTotalOf (λ t. t.fee_x) (λ b. b.position_fee_x_amount)
unfolding add_bin
fee_x-IsTotalOf = record { starts = refl; adds = λ lo hi b t. ground arith }

fee_y-IsTotalOf : IsTotalOf (λ t. t.fee_y) (λ b. b.position_fee_y_amount)
unfolding add_bin
fee_y-IsTotalOf = record { starts = refl; adds = λ lo hi b t. ground arith }

-- The chunks of a position whose last bin ends the range add up to the bins of the range, in any total
-- that the loop keeps as a sum over the bins.
chunks_sum :
    (total : Totals → ℕ) (part : PositionBinData → ℕ) (lo hi : ℤ) (bins : List PositionBinData)
    (last : PositionBinData)
    → IsTotalOf total part
    → last.bin_id ≡ hi
    → sum_of (λ c. total c.totals) (chunk_position_bin_range (bins ++ last ∷ []) lo hi)
      ≡ sum_of (counted part lo hi) (bins ++ last ∷ [])
unfolding chunk_position_bin_range
chunks_sum total part lo hi bins last sums e =
    let kept = chunk_position_loop-sum total part sums lo hi (bins ++ last ∷ []) no_totals in
    let nothing = ap total (closed lo hi bins last no_totals e) in
    let none_left = sums.starts in omega (arith, kept, nothing, none_left)

-- For a position whose last bin ends the range, the amounts and the fees of the chunks add up to those
-- of its bins of the range.
pub chunk_position_bin_range-sums :
    (lo hi : ℤ) (bins : List PositionBinData) (last : PositionBinData)
    → last.bin_id ≡ hi
    → let all = bins ++ last ∷ [] in
      let chunks = chunk_position_bin_range all lo hi in
      (sum_of (λ c. c.totals.amount_x) chunks
        ≡ sum_of (counted (λ b. b.position_x_amount) lo hi) all)
      × (sum_of (λ c. c.totals.amount_y) chunks
          ≡ sum_of (counted (λ b. b.position_y_amount) lo hi) all)
      × (sum_of (λ c. c.totals.fee_x) chunks
          ≡ sum_of (counted (λ b. b.position_fee_x_amount) lo hi) all)
      × (sum_of (λ c. c.totals.fee_y) chunks
          ≡ sum_of (counted (λ b. b.position_fee_y_amount) lo hi) all)
chunk_position_bin_range-sums lo hi bins last e = (
  chunks_sum (λ t. t.amount_x) (λ b. b.position_x_amount) lo hi bins last amount_x-IsTotalOf e,
  chunks_sum (λ t. t.amount_y) (λ b. b.position_y_amount) lo hi bins last amount_y-IsTotalOf e,
  chunks_sum (λ t. t.fee_x) (λ b. b.position_fee_x_amount) lo hi bins last fee_x-IsTotalOf e,
  chunks_sum (λ t. t.fee_y) (λ b. b.position_fee_y_amount) lo hi bins last fee_y-IsTotalOf e,
)
