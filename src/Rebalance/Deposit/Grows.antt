-- ===== src/Rebalance/Deposit/Grows.antt =====
-- rebalancePosition.ts, `_simulateDeposit`: what the position gains is what is deposited.
use mathlib.Core.Path.{subst}
use dlmm_sdk.Prelude.{
  ℕ, zero, suc, ◌+◌, ◌≡◌, refl, sym, ap, ◌∙◌, arith, inl, inr, true, false, none, List, [], ◌∷◌,
  All, Result, ok, Bool-cases, le→ltb-false, le→leb,
}
use dlmm_sdk.Prelude.Int.{
  ℤ, pos, pos_part, neg_part, ◌+ℤ◌, ◌-ℤ◌, ◌*ℤ◌, ◌≤ℤ◌, eqb_ℤ, ltb_ℤ, leb_ℤ, int_laws, parts_of_eq,
}
use dlmm_sdk.Pair.{SParameters, VParameters}
use dlmm_sdk.Volatility.{update_reference, update_volatility_accumulator}
use dlmm_sdk.Rebalance.{RebalancePositionBinData, RebalanceWithDeposit, bin_range_to_bin_id_array}
use dlmm_sdk.Positions.{ids_from_to, indexes_from}
use dlmm_sdk.Rebalance.Conserved.{range-IsAmong}
use dlmm_sdk.Rebalance.Sums.{total, swap_head, swap_tail}
use dlmm_sdk.Rebalance.Totals.{bin_ids, IsAmong, IsAmong-rest}
use dlmm_sdk.Rebalance.Amounts.{AmountIntoBin}
use dlmm_sdk.Rebalance.Amounts.Asks.{Deposits}
use dlmm_sdk.Rebalance.Amounts.Bins.{amount_ids}
use dlmm_sdk.Rebalance.Amounts.Sides.{to_amount_into_bins-IsDeposit}
use dlmm_sdk.Rebalance.Deposit.{
  DepositContext, Deposited, compute_composition_fee, simulate_deposit_bin, into_active_bin,
  into_bin, add_at, deposit_amounts,
}
use dlmm_sdk.Rebalance.Deposit.Simulate.{deposit_ranges}

no_composition_fee :
    (bin_step : ℕ) (s : SParameters) (v : VParameters) (x y : ℤ)
    → compute_composition_fee bin_step s v x x y y ≡ pos 0
unfolding compute_composition_fee
no_composition_fee bin_step s v x y =
    let same : ltb_ℤ x x ≡ false =
      le→ltb-false (pos_part x + neg_part x) (pos_part x + neg_part x) (omega arith) in
    rw same

-- Without the active bin, the amounts go into the bins as they are.
into_bin-none :
    (c : DepositContext) (a : AmountIntoBin)
    → c.active_bin ≡ none
    → into_bin c a ≡ ok (a.amount_x, a.amount_y)
unfolding into_bin into_active_bin simulate_deposit_bin
into_bin-none c a missing =
    let s = c.parameters in
    let moved = update_reference c.active_id c.v_parameters s (c.current_timestamp *ℤ pos 1000) in
    let v = update_volatility_accumulator moved s c.active_id in
    let x : a.amount_x -ℤ pos 0 ≡ a.amount_x = omega int_laws in
    let y : a.amount_y -ℤ pos 0 ≡ a.amount_y = omega int_laws in
    elim (Bool-cases (eqb_ℤ a.bin_id c.active_id)) [
      | inl h ↦ rw (
        h,
        missing,
        no_composition_fee c.bin_step s v a.amount_x a.amount_y,
        no_composition_fee c.bin_step s v a.amount_y a.amount_x,
        x,
        y,
      )
      | inr h ↦ rw h
    ]

abbrev x_in : RebalancePositionBinData → ℤ
x_in b = b.amount_x

abbrev y_in : RebalancePositionBinData → ℤ
y_in b = b.amount_y

-- The bins with an amount added.
record IsAdded (x y : ℤ) (bins bins' : List RebalancePositionBinData) : Type 0 where
  more_x : total x_in bins' +ℤ pos 0 ≡ total x_in bins +ℤ x
  more_y : total y_in bins' +ℤ pos 0 ≡ total y_in bins +ℤ y
  same : bin_ids bins' ≡ bin_ids bins

add_at-IsAdded :
    (i x y : ℤ) (bins : List RebalancePositionBinData)
    → IsAmong (bin_ids bins) i
    → (bins' : List RebalancePositionBinData) × (add_at i x y bins ≡ ok bins')
      × IsAdded x y bins bins'
unfolding add_at
add_at-IsAdded i x y [] (n, at) = grind (arith, at)
add_at-IsAdded i x y (b ∷ bins) among = elim (Bool-cases (eqb_ℤ b.bin_id i)) [
  | inl here ↦
      let b' : RebalancePositionBinData = record b {
        amount_x = b.amount_x +ℤ x;
        amount_y = b.amount_y +ℤ y;
      } in
      (
        b' ∷ bins,
        rw here,
        record {
          more_x = swap_head x_in b b' bins x (pos 0) (omega int_laws);
          more_y = swap_head y_in b b' bins y (pos 0) (omega int_laws);
          same = refl;
        },
      )
  | inr apart ↦
      let (rest, run, added) =
        add_at-IsAdded i x y bins (IsAmong-rest b.bin_id i (bin_ids bins) among apart) in
      (
        b ∷ rest,
        rw (apart, run),
        record {
          more_x = swap_tail x_in b bins rest x (pos 0) added.more_x;
          more_y = swap_tail y_in b bins rest y (pos 0) added.more_y;
          same = ap (λ (ids : List ℤ). b.bin_id ∷ ids) added.same;
        },
      )
]

-- The totals of the bins and the totals deposited go up by the same amounts.
pub record IsGrown (d e : Deposited) : Type 0 where
  pub x :
      total (λ b. b.amount_x) e.bins +ℤ d.total_amount_x_deposited
      ≡ total (λ b. b.amount_x) d.bins +ℤ e.total_amount_x_deposited
  pub y :
      total (λ b. b.amount_y) e.bins +ℤ d.total_amount_y_deposited
      ≡ total (λ b. b.amount_y) d.bins +ℤ e.total_amount_y_deposited
  pub same : bin_ids e.bins ≡ bin_ids d.bins

IsGrown-refl : (d : Deposited) → IsGrown d d
IsGrown-refl d = record { x = refl; y = refl; same = refl }

IsGrown-trans : (d e f : Deposited) → IsGrown d e → IsGrown e f → IsGrown d f
IsGrown-trans d e f g h = record {
  x = omega (int_laws, parts_of_eq _ _ g.x, parts_of_eq _ _ h.x);
  y = omega (int_laws, parts_of_eq _ _ g.y, parts_of_eq _ _ h.y);
  same = h.same ∙ g.same;
}

deposit_amounts-IsGrown :
    (c : DepositContext) (amounts : List AmountIntoBin) (d : Deposited)
    → c.active_bin ≡ none
    → All (IsAmong (bin_ids d.bins)) (amount_ids amounts)
    → (e : Deposited) × (deposit_amounts c amounts d ≡ ok e) × IsGrown d e
unfolding deposit_amounts
deposit_amounts-IsGrown c [] d missing _ = (d, refl, IsGrown-refl d)
deposit_amounts-IsGrown c (a ∷ amounts) d missing (among, rest) =
    let (bins, run, added) = add_at-IsAdded a.bin_id a.amount_x a.amount_y d.bins among in
    let next : Deposited = record {
      bins = bins;
      total_amount_x_deposited = d.total_amount_x_deposited +ℤ a.amount_x;
      total_amount_y_deposited = d.total_amount_y_deposited +ℤ a.amount_y;
    } in
    let step : IsGrown d next = record {
      x = omega (int_laws, parts_of_eq _ _ added.more_x);
      y = omega (int_laws, parts_of_eq _ _ added.more_y);
      same = added.same;
    } in
    let (e, runs, after) =
      deposit_amounts-IsGrown c amounts next missing
        (subst (λ (ids : List ℤ). All (IsAmong ids) (amount_ids amounts)) (sym added.same) rest) in
    (e, rw (into_bin-none c a missing, run) runs, IsGrown-trans d next e step after)

-- A deposit over bins from a lower to an upper id, with no negative amount of X at or above the active
-- bin.
pub record IsInside (lower upper active_id : ℤ) (d : RebalanceWithDeposit) : Type 0 where
  pub not_negative :
      (b : ℤ)
      → active_id ≤ℤ b
      → active_id +ℤ d.min_delta_id ≤ℤ b
      → b ≤ℤ active_id +ℤ d.max_delta_id
      → pos 0 ≤ℤ d.x0 +ℤ d.delta_x *ℤ (b -ℤ active_id)
  pub above : lower ≤ℤ active_id +ℤ d.min_delta_id
  pub below : active_id +ℤ d.max_delta_id ≤ℤ upper
  pub order : d.min_delta_id ≤ℤ d.max_delta_id

inner-IsAmong :
    (lower upper : ℤ) (k : ℕ) (a : ℤ)
    → lower ≤ℤ a
    → a +ℤ pos k ≤ℤ upper +ℤ pos 1
    → All (IsAmong (bin_range_to_bin_id_array lower upper)) (indexes_from k a)
unfolding indexes_from
inner-IsAmong lower upper zero a l u = tt
inner-IsAmong lower upper (suc k) a l u =
    let l' : leb_ℤ lower a ≡ true =
      le→leb (pos_part lower + neg_part a) (pos_part a + neg_part lower) l in
    let u' : leb_ℤ a upper ≡ true =
      le→leb (pos_part a + neg_part upper) (pos_part upper + neg_part a) (omega (int_laws, u)) in
    (
      range-IsAmong lower upper a (rw (l', u')),
      inner-IsAmong lower upper k (a +ℤ pos 1) (omega (int_laws, l)) (omega (int_laws, u)),
    )

range-All :
    (lower upper a b : ℤ)
    → lower ≤ℤ a
    → b ≤ℤ upper
    → a ≤ℤ b
    → All (IsAmong (bin_range_to_bin_id_array lower upper)) (bin_range_to_bin_id_array a b)
range-All lower upper a b l u o =
    unfold bin_range_to_bin_id_array in
    inner-IsAmong lower upper (ids_from_to a b) a l (omega (int_laws, u, o))

-- Without a negative amount the assertions hold.
Deposits-ok :
    (active : ℤ) {lower upper : ℤ} (d : RebalanceWithDeposit)
    → IsInside lower upper active d
    → (bins : List AmountIntoBin) (r : Result (List AmountIntoBin))
    → Deposits active d.min_delta_id d.max_delta_id d.delta_x d.x0 bins r
    → r ≡ ok bins
Deposits-ok active d inside bins r (inl run) = run
Deposits-ok active d inside bins r (inr (_, (b, above, from, to, negative))) =
    let fine = inside.not_negative b above from to in absurd (omega (arith, fine, negative))

-- While the active bin is missing, the bins of the position are those of a range that contains the
-- deposits, and no deposit has a negative amount of X at a bin at or above the active one, the
-- deposits do not throw, and the totals of the bins go up by what is deposited, for both tokens; the
-- bins keep their ids.
pub deposit_ranges-IsGrown :
    (c : DepositContext) (deposits : List RebalanceWithDeposit) (d : Deposited) (lower upper : ℤ)
    → c.active_bin ≡ none
    → bin_ids d.bins ≡ bin_range_to_bin_id_array lower upper
    → All (IsInside lower upper c.active_id) deposits
    → (e : Deposited) × (deposit_ranges c deposits d ≡ ok e) × IsGrown d e
unfolding deposit_ranges
deposit_ranges-IsGrown c [] d lower upper missing ids _ = (d, refl, IsGrown-refl d)
deposit_ranges-IsGrown c (r ∷ deposits) d lower upper missing ids (inside, rest) =
    let a = c.active_id +ℤ r.min_delta_id in
    let b = c.active_id +ℤ r.max_delta_id in
    let (amounts, written, (own, _)) =
      to_amount_into_bins-IsDeposit c.active_id r.min_delta_id r.max_delta_id r.delta_x r.delta_y
        r.x0 r.y0 c.bin_step r.favor_x_in_active_bin inside.order in
    let wrote = Deposits-ok c.active_id r inside amounts _ written in
    let o = inside.order in
    let among = range-All lower upper a b inside.above inside.below (omega (int_laws, o)) in
    let all : All (IsAmong (bin_ids d.bins)) (amount_ids amounts) =
      subst (λ (js : List ℤ). All (IsAmong js) (amount_ids amounts)) (sym ids)
        (subst (All (IsAmong (bin_range_to_bin_id_array lower upper))) (sym own) among) in
    let (e, run, grown) = deposit_amounts-IsGrown c amounts d missing all in
    let (f, runs, after) =
      deposit_ranges-IsGrown c deposits e lower upper missing (grown.same ∙ ids) rest in
    (f, rw (wrote, run) runs, IsGrown-trans d e f grown after)
