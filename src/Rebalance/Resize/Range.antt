-- ===== src/Rebalance/Resize/Range.antt =====
-- rebalancePosition.ts, `_simulateResize`: the ids of the bins as the ends of the range move.
use dlmm_sdk.Prelude.{
  ℕ, zero, suc, ◌+◌, ◌≡◌, refl, sym, ap, ◌∙◌, arith, List, [], ◌∷◌, ◌++◌, append_nil, append_assoc,
}
use dlmm_sdk.Prelude.Int.{ℤ, pos, ◌+ℤ◌, ◌-ℤ◌, int_laws, parts_of_eq}
use dlmm_sdk.Positions.{indexes_from}
use dlmm_sdk.Rebalance.{RebalancePositionBinData}
use dlmm_sdk.Rebalance.Totals.{bin_ids}
use dlmm_sdk.Rebalance.Amounts.Bins.{indexes_from-onto}
use dlmm_sdk.Rebalance.Resize.{
  empty_bin, unshift_bins, push_bins, shift_bins, all_but_last, pop_bins,
}

bin_ids-append :
    (xs ys : List RebalancePositionBinData) → bin_ids (xs ++ ys) ≡ bin_ids xs ++ bin_ids ys
bin_ids-append [] ys = refl
bin_ids-append (x ∷ xs) ys = ap (λ (ids : List ℤ). x.bin_id ∷ ids) (bin_ids-append xs ys)

pub tail_eq : (a b : ℤ) (xs ys : List ℤ) → a ∷ xs ≡ b ∷ ys → xs ≡ ys
tail_eq a b xs ys h = cc

pub head_eq : (a b : ℤ) (xs ys : List ℤ) → a ∷ xs ≡ b ∷ ys → a ≡ b
head_eq a b xs ys h = cc

pub unshift_bins-ids :
    (n : ℕ) (b i : ℤ) (bins : List RebalancePositionBinData)
    → i +ℤ pos n ≡ b +ℤ pos 1
    → bin_ids (unshift_bins n b bins) ≡ indexes_from n i ++ bin_ids bins
unfolding unshift_bins indexes_from
unshift_bins-ids zero b i bins e = refl
unshift_bins-ids (suc n) b i bins e =
    let e' : i +ℤ pos n ≡ b -ℤ pos 1 +ℤ pos 1 = omega (int_laws, parts_of_eq _ _ e) in
    let last : i +ℤ pos n ≡ b = omega (int_laws, parts_of_eq _ _ e) in
    unshift_bins-ids n (b -ℤ pos 1) i (empty_bin b ∷ bins) e'
    ∙ ap (λ (j : ℤ). indexes_from n i ++ j ∷ bin_ids bins) (sym last)
    ∙ sym (indexes_from-onto n i (bin_ids bins))

pub push_bins-ids :
    (n : ℕ) (b : ℤ) (bins : List RebalancePositionBinData)
    → bin_ids (push_bins n b bins) ≡ bin_ids bins ++ indexes_from n b
unfolding push_bins indexes_from
push_bins-ids zero b bins = sym (append_nil (bin_ids bins))
push_bins-ids (suc n) b bins =
    push_bins-ids n (b +ℤ pos 1) (bins ++ empty_bin b ∷ [])
    ∙ ap (λ (ids : List ℤ). ids ++ indexes_from n (b +ℤ pos 1))
        (bin_ids-append bins (empty_bin b ∷ []))
    ∙ append_assoc (bin_ids bins) (b ∷ []) (indexes_from n (b +ℤ pos 1))

pub shift_bins-ids :
    (n k k' : ℕ) (a a' : ℤ) (bins : List RebalancePositionBinData)
    → k ≡ n + k'
    → a' ≡ a +ℤ pos n
    → bin_ids bins ≡ indexes_from k a
    → bin_ids (shift_bins n bins) ≡ indexes_from k' a'
unfolding shift_bins indexes_from
shift_bins-ids zero k k' a a' bins s e h =
    let s' : k ≡ k' = omega (arith, s) in
    let e' : a ≡ a' = omega (int_laws, parts_of_eq _ _ e) in
    h ∙ ap (λ (j : ℕ). indexes_from j a) s' ∙ ap (λ (i : ℤ). indexes_from k' i) e'
shift_bins-ids (suc n) zero k' a a' bins s e h = grind (arith, s)
shift_bins-ids (suc n) (suc k) k' a a' [] s e h = grind (arith, h)
shift_bins-ids (suc n) (suc k) k' a a' (b ∷ bins) s e h =
    let e' : a' ≡ a +ℤ pos 1 +ℤ pos n = omega (int_laws, parts_of_eq _ _ e) in
    shift_bins-ids n k k' (a +ℤ pos 1) a' bins (omega (arith, s)) e'
      (tail_eq b.bin_id a (bin_ids bins) (indexes_from k (a +ℤ pos 1)) h)

all_but_last-ids :
    (k : ℕ) (a : ℤ) (bins : List RebalancePositionBinData)
    → bin_ids bins ≡ indexes_from (suc k) a
    → bin_ids (all_but_last bins) ≡ indexes_from k a
unfolding indexes_from
all_but_last-ids k a [] h = grind (arith, h)
all_but_last-ids zero a (b ∷ []) h = refl
all_but_last-ids (suc k) a (b ∷ []) h = grind (arith, h)
all_but_last-ids zero a (b ∷ c ∷ bins) h = grind (arith, h)
all_but_last-ids (suc k) a (b ∷ c ∷ bins) h =
    let rest = all_but_last-ids k (a +ℤ pos 1) (c ∷ bins) (tail_eq b.bin_id a _ _ h) in
    ap (λ (i : ℤ). i ∷ bin_ids (all_but_last (c ∷ bins))) (head_eq b.bin_id a _ _ h)
    ∙ ap (λ (ids : List ℤ). a ∷ ids) rest

pub pop_bins-ids :
    (n k k' : ℕ) (a : ℤ) (bins : List RebalancePositionBinData)
    → k ≡ n + k'
    → bin_ids bins ≡ indexes_from k a
    → bin_ids (pop_bins n bins) ≡ indexes_from k' a
unfolding pop_bins
pop_bins-ids zero k k' a bins s h =
    let s' : k ≡ k' = omega (arith, s) in h ∙ ap (λ (j : ℕ). indexes_from j a) s'
pop_bins-ids (suc n) zero k' a bins s h = grind (arith, s)
pop_bins-ids (suc n) (suc k) k' a bins s h =
    pop_bins-ids n k k' a (all_but_last bins) (omega (arith, s)) (all_but_last-ids k a bins h)
