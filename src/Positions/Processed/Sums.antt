-- ===== src/Positions/Processed/Sums.antt =====
-- index.ts, `processPosition`: the totals of a position are the sums over its bins.
use dlmm_sdk.Prelude.{
  ℕ, zero, suc, ◌+◌, ◌^◌, ◌<◌, ◌≤◌, ◌≡◌, refl, sym, ap, ◌∙◌, arith, some, List, [], ◌∷◌, length,
  All, sum_of, ok, ok_injective,
}
use dlmm_sdk.Prelude.Int.{ℤ, pos, ◌+ℤ◌, ◌≤ℤ◌, +ℤ_zero, +ℤ_assoc}
use dlmm_sdk.Pair.{BinArray}
use dlmm_sdk.BinArray.Rewards.{RewardInfo}
use dlmm_sdk.Positions.{ids_from_to, indexes_from}
use dlmm_sdk.Positions.Listing.{BinLiquidity, get_bins_between_lower_and_upper_bound}
use dlmm_sdk.Positions.Listing.Entries.{listed_ids, get_bins_between_lower_and_upper_bound-Lists}
use dlmm_sdk.Positions.Processed.{
  UserFeeInfo, UserRewardInfo, ProcessedBin, ProcessedTotals, no_amounts, add_processed,
  process_bins, process_position,
}
use dlmm_sdk.Positions.Processed.Entry.{AllHeld, process_bin-IsPart}

abbrev pub sum_ℤ : (ProcessedBin → ℤ) → List ProcessedBin → ℤ
sum_ℤ f [] = pos 0
sum_ℤ f (b ∷ bins) = f b +ℤ sum_ℤ f bins

abbrev pub processed_ids : List ProcessedBin → List ℤ
processed_ids [] = []
processed_ids (b ∷ bins) = b.bin_id ∷ processed_ids bins

-- Totals `u` that add to `t` what the entries have.
pub record IsAdded (t u : ProcessedTotals) (entries : List ProcessedBin) : Type 0 where
  pub amounts_x : u.total_x_amount ≡ t.total_x_amount + sum_of (λ b. b.position_x_amount) entries
  pub amounts_y : u.total_y_amount ≡ t.total_y_amount + sum_of (λ b. b.position_y_amount) entries
  pub fees_x : u.fee_x ≡ t.fee_x +ℤ sum_ℤ (λ b. b.position_fee_x_amount) entries
  pub fees_y : u.fee_y ≡ t.fee_y +ℤ sum_ℤ (λ b. b.position_fee_y_amount) entries
  pub rewards_one : u.reward_one ≡ t.reward_one +ℤ sum_ℤ (λ b. b.position_reward_one) entries
  pub rewards_two : u.reward_two ≡ t.reward_two +ℤ sum_ℤ (λ b. b.position_reward_two) entries

added_ℤ : (a b c u : ℤ) → u ≡ a +ℤ b +ℤ c → u ≡ a +ℤ (b +ℤ c)
added_ℤ a b c u e = e ∙ +ℤ_assoc a b c

module _ (add_decimal : ℕ → ℕ → ℕ) (exact : (a b : ℕ) → a + b < 10 ^ 20 → add_decimal a b ≡ a + b)
    (active t : ℤ) (rewards : RewardInfo × RewardInfo) where
  IsAdded-cons :
      (u v : ProcessedTotals) (b : ProcessedBin) (entries : List ProcessedBin)
      → u.total_x_amount + b.position_x_amount < 10 ^ 20
      → u.total_y_amount + b.position_y_amount < 10 ^ 20
      → IsAdded (add_processed add_decimal u b) v entries
      → IsAdded u v (b ∷ entries)
  unfolding add_processed
  IsAdded-cons u v b entries small_x small_y a =
      let x = exact u.total_x_amount b.position_x_amount small_x in
      let y = exact u.total_y_amount b.position_y_amount small_y in
      let ax = a.amounts_x in
      let ay = a.amounts_y in
      record {
        amounts_x = omega (arith, ax, x);
        amounts_y = omega (arith, ay, y);
        fees_x = added_ℤ _ _ _ _ a.fees_x;
        fees_y = added_ℤ _ _ _ _ a.fees_y;
        rewards_one = added_ℤ _ _ _ _ a.rewards_one;
        rewards_two = added_ℤ _ _ _ _ a.rewards_two;
      }

  next_of_x :
      (u : ProcessedTotals) (b : ProcessedBin)
      → u.total_x_amount + b.position_x_amount < 10 ^ 20
      → (add_processed add_decimal u b).total_x_amount ≡ u.total_x_amount + b.position_x_amount
  unfolding add_processed
  next_of_x u b h = exact u.total_x_amount b.position_x_amount h

  next_of_y :
      (u : ProcessedTotals) (b : ProcessedBin)
      → u.total_y_amount + b.position_y_amount < 10 ^ 20
      → (add_processed add_decimal u b).total_y_amount ≡ u.total_y_amount + b.position_y_amount
  unfolding add_processed
  next_of_y u b h = exact u.total_y_amount b.position_y_amount h

  process_bins-sums :
      (bins : List BinLiquidity) (shares : List ℕ) (fees : List UserFeeInfo)
      (infos : List UserRewardInfo) (u : ProcessedTotals)
      → AllHeld bins shares fees infos
      → u.total_x_amount + sum_of (λ b. b.x_amount) bins < 10 ^ 20
      → u.total_y_amount + sum_of (λ b. b.y_amount) bins < 10 ^ 20
      → (p : List ProcessedBin × ProcessedTotals) × (process_bins add_decimal active t rewards bins
            shares fees infos u
          ≡ ok p)
        × (processed_ids p.0 ≡ listed_ids bins)
        × (sum_of (λ b. b.position_x_amount) p.0 ≤ sum_of (λ b. b.x_amount) bins)
        × (sum_of (λ b. b.position_y_amount) p.0 ≤ sum_of (λ b. b.y_amount) bins)
        × IsAdded u p.1 p.0
  unfolding process_bins AllHeld
  process_bins-sums [] shares fees infos u held small_x small_y = (
    ([], u),
    refl,
    refl,
    omega arith,
    omega arith,
    record {
      amounts_x = omega arith;
      amounts_y = omega arith;
      fees_x = sym (+ℤ_zero _);
      fees_y = sym (+ℤ_zero _);
      rewards_one = sym (+ℤ_zero _);
      rewards_two = sym (+ℤ_zero _);
    },
  )
  process_bins-sums (bin ∷ bins) [] fees infos u held small_x small_y = elim held [ ]
  process_bins-sums (bin ∷ bins) (share ∷ shares) [] infos u held small_x small_y = elim held [ ]
  process_bins-sums (bin ∷ bins) (share ∷ shares) (fee ∷ fees) [] u held small_x small_y =
      elim held [ ]
  process_bins-sums (bin ∷ bins) (share ∷ shares) (fee ∷ fees) (info ∷ infos) u (here, held) small_x
        small_y =
      let (b, e, (id, x, y)) = process_bin-IsPart active t rewards bin share fee info here in
      let next = add_processed add_decimal u b in
      let now_x : u.total_x_amount + b.position_x_amount < 10 ^ 20 = omega (arith, x, small_x) in
      let now_y : u.total_y_amount + b.position_y_amount < 10 ^ 20 = omega (arith, y, small_y) in
      let next_x : next.total_x_amount ≡ u.total_x_amount + b.position_x_amount =
        next_of_x u b now_x in
      let next_y : next.total_y_amount ≡ u.total_y_amount + b.position_y_amount =
        next_of_y u b now_y in
      let ((entries, v), run, ids, xs, ys, added) =
        process_bins-sums bins shares fees infos next held (omega (arith, next_x, x, small_x))
          (omega (arith, next_y, y, small_y)) in
      (
        (b ∷ entries, v),
        rw (e, run) refl,
        rw (id, ids) refl,
        omega (arith, x, xs),
        omega (arith, y, ys),
        IsAdded-cons u v b entries now_x now_y added,
      )

-- A list of one id at least is not empty.
no_indexes : (n : ℕ) (i : ℤ) → 0 < n → ¬ ([] ≡ indexes_from n i)
unfolding indexes_from
no_indexes zero i h e = elim h [ ]
no_indexes (suc n) i h e = cc

-- For arrays with 70 bins, a range that is not empty, a share and infos for each of its bins, where
-- each share is at most the supply of its bin, the supply is zero or at least one unit of 2^64, and bins
-- and infos have two places for rewards, amounts below 10^20 and a decimal sum that is exact below
-- that, `processPosition` does not throw and returns one entry for each bin of the range, in order;
-- the totals of the amounts, fees and rewards are the sums over the entries, and the amounts add up to
-- at most those of the bins.
pub process_position-IsAdded :
    (add_decimal : ℕ → ℕ → ℕ) (active t : ℤ) (rewards : RewardInfo × RewardInfo) (lower upper : ℤ)
    (shares : List ℕ) (fees : List UserFeeInfo) (infos : List UserRewardInfo)
    (arrays : List BinArray) (bins : List BinLiquidity)
    → ((a b : ℕ) → a + b < 10 ^ 20 → add_decimal a b ≡ a + b)
    → All (λ a. length a.bins ≡ 70) arrays
    → lower ≤ℤ upper
    → get_bins_between_lower_and_upper_bound lower upper arrays ≡ ok bins
    → AllHeld bins shares fees infos
    → sum_of (λ b. b.x_amount) bins < 10 ^ 20
    → sum_of (λ b. b.y_amount) bins < 10 ^ 20
    → (p : List ProcessedBin × ProcessedTotals) × (process_position add_decimal active t rewards
          lower upper shares fees infos arrays
        ≡ ok (some p))
      × (processed_ids p.0 ≡ indexes_from (ids_from_to lower upper) lower)
      × (sum_of (λ b. b.position_x_amount) p.0 ≤ sum_of (λ b. b.x_amount) bins)
      × (sum_of (λ b. b.position_y_amount) p.0 ≤ sum_of (λ b. b.y_amount) bins)
      × IsAdded no_amounts p.1 p.0
unfolding process_position
process_position-IsAdded add_decimal active t rewards lower upper shares fees infos arrays [] exact
      seventy order read held small_x small_y =
    let (bins', e, ids, _) =
      get_bins_between_lower_and_upper_bound-Lists arrays lower upper seventy order in
    elim (no_indexes (ids_from_to lower upper) lower (omega (arith, order))
      (ap listed_ids (ok_injective [] bins' (sym read ∙ e)) ∙ ids)) [ ]
process_position-IsAdded add_decimal active t rewards lower upper shares fees infos arrays
      (bin ∷ bins) exact seventy order read held small_x small_y =
    let (bins', e, ids, _) =
      get_bins_between_lower_and_upper_bound-Lists arrays lower upper seventy order in
    let same : bin ∷ bins ≡ bins' = ok_injective (bin ∷ bins) bins' (sym read ∙ e) in
    let (p, run, named, x, y, added) =
      process_bins-sums add_decimal exact active t rewards (bin ∷ bins) shares fees infos no_amounts
        held (omega (arith, small_x)) (omega (arith, small_y)) in
    (p, rw (read, run) refl, named ∙ ap listed_ids same ∙ ids, x, y, added)
