-- ===== src/Rebalance/Amounts/Bins.antt =====
-- rebalancePosition.ts, the bins of `toAmountIntoBins`.
use dlmm_sdk.Prelude.{
  append_nil, ℕ, zero, suc, ◌+◌, ◌*◌, ◌/◌, ◌^◌, ◌≡◌, refl, sym, ap, ◌∙◌, arith, List, [], ◌∷◌, ◌++◌,
  map,
}
use dlmm_sdk.Prelude.Int.{ℤ, pos, neg_ℤ, ◌+ℤ◌, ◌-ℤ◌, ◌≤ℤ◌, int_laws, parts_of_eq}
use dlmm_sdk.Constants.{scale_offset}
use dlmm_sdk.Math.{get_q_price_base_factor}
use dlmm_sdk.Math.Power.{pow}
use dlmm_sdk.Positions.{ids_from_to, indexes_from}
use dlmm_sdk.Rebalance.{bin_range_to_bin_id_array}
use dlmm_sdk.Rebalance.Amounts.{AmountIntoBin, bid_loop, get_amount_in_bins_bid_side}
use dlmm_sdk.Rebalance.Amounts.Asks.{ask_amounts, asks}

abbrev pub amount_ids : List AmountIntoBin → List ℤ
amount_ids bins = map (λ b. b.bin_id) bins

pub map-append :
    (xs ys : List AmountIntoBin) → amount_ids (xs ++ ys) ≡ amount_ids xs ++ amount_ids ys
map-append [] ys = refl
map-append (x ∷ xs) ys = ap (λ (ids : List ℤ). x.bin_id ∷ ids) (map-append xs ys)

pub indexes_from-onto :
    (n : ℕ) (i : ℤ) (xs : List ℤ)
    → indexes_from (suc n) i ++ xs ≡ indexes_from n i ++ (i +ℤ pos n) ∷ xs
unfolding indexes_from
indexes_from-onto zero i xs = let e : i ≡ i +ℤ pos 0 = omega int_laws in ap (λ (j : ℤ). j ∷ xs) e
indexes_from-onto (suc n) i xs =
    let e : i +ℤ pos 1 +ℤ pos n ≡ i +ℤ pos (suc n) = omega int_laws in
    ap (λ (ids : List ℤ). i ∷ ids)
      (indexes_from-onto n (i +ℤ pos 1) xs
        ∙ ap (λ (j : ℤ). indexes_from n (i +ℤ pos 1) ++ j ∷ xs) e)

pub indexes_from-split :
    (m n t : ℕ) (i j : ℤ)
    → t ≡ m + n
    → j ≡ i +ℤ pos m
    → indexes_from m i ++ indexes_from n j ≡ indexes_from t i
unfolding indexes_from
indexes_from-split zero n t i j s e =
    let e' : j ≡ i = e ∙ omega int_laws in
    let s' : n ≡ t = omega (arith, s) in
    ap (λ (k : ℤ). indexes_from n k) e' ∙ ap (λ (k : ℕ). indexes_from k i) s'
indexes_from-split (suc m) n zero i j s e = grind (arith, s)
indexes_from-split (suc m) n (suc t) i j s e =
    let e' : j ≡ i +ℤ pos 1 +ℤ pos m = e ∙ omega int_laws in
    ap (λ (ids : List ℤ). i ∷ ids) (indexes_from-split m n t (i +ℤ pos 1) j (omega (arith, s)) e')

bid_loop-ids :
    (n : ℕ) (active delta_y y0 b : ℤ)
    → amount_ids (bid_loop n active delta_y y0 b) ≡ indexes_from n b
unfolding bid_loop indexes_from
bid_loop-ids zero active delta_y y0 b = refl
bid_loop-ids (suc n) active delta_y y0 b =
    ap (λ (ids : List ℤ). b ∷ ids) (bid_loop-ids n active delta_y y0 (b +ℤ pos 1))

ask_amounts-ids :
    (n base : ℕ) (active delta_x x0 b i : ℤ) (price : ℕ) (written : List AmountIntoBin)
    → i +ℤ pos n ≡ b +ℤ pos 1
    → amount_ids (ask_amounts n base active delta_x x0 b price written)
      ≡ indexes_from n i ++ amount_ids written
unfolding ask_amounts indexes_from
ask_amounts-ids zero base active delta_x x0 b i price written e = refl
ask_amounts-ids (suc n) base active delta_x x0 b i price written e =
    let e' : i +ℤ pos n ≡ b -ℤ pos 1 +ℤ pos 1 = omega (int_laws, parts_of_eq _ _ e) in
    let last : i +ℤ pos n ≡ b = omega (int_laws, parts_of_eq _ _ e) in
    ask_amounts-ids n base active delta_x x0 (b -ℤ pos 1) i (price * base / 2 ^ scale_offset) _ e'
    ∙ ap (λ (j : ℤ). indexes_from n i ++ j ∷ amount_ids written) (sym last)
    ∙ sym (indexes_from-onto n i (amount_ids written))

-- The number of ids of a range, up to its first bin.
range_count : (a b : ℤ) → a ≤ℤ b +ℤ pos 1 → a +ℤ pos (ids_from_to a b) ≡ b +ℤ pos 1
range_count a b h = omega (int_laws, h)

pub bid_side-ids :
    (active lo hi delta_y y0 : ℤ)
    → amount_ids (get_amount_in_bins_bid_side active lo hi delta_y y0)
      ≡ bin_range_to_bin_id_array (active +ℤ lo) (active +ℤ hi)
unfolding get_amount_in_bins_bid_side bin_range_to_bin_id_array
bid_side-ids active lo hi delta_y y0 = bid_loop-ids _ active delta_y y0 (active +ℤ lo)

pub ask_side-ids :
    (active : ℤ) (step : ℕ) (lo hi delta_x x0 : ℤ)
    → lo ≤ℤ hi +ℤ pos 1
    → amount_ids (asks active step lo hi delta_x x0)
      ≡ bin_range_to_bin_id_array (active +ℤ lo) (active +ℤ hi)
unfolding asks bin_range_to_bin_id_array
ask_side-ids active step lo hi delta_x x0 h =
    let a = active +ℤ lo in
    let b = active +ℤ hi in
    let base = get_q_price_base_factor step in
    let fits : a ≤ℤ b +ℤ pos 1 = omega (int_laws, h) in
    ask_amounts-ids (ids_from_to a b) base active delta_x x0 b a (pow base (neg_ℤ b)) []
      (range_count a b fits)
    ∙ append_nil (indexes_from (ids_from_to a b) a)
