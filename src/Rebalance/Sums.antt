-- ===== src/Rebalance/Sums.antt =====
-- rebalancePosition.ts, the totals of one field over the bins of a position.
use dlmm_sdk.Prelude.{◌≡◌, refl, ap, ◌∙◌, List, [], ◌∷◌}
use dlmm_sdk.Prelude.Int.{ℤ, pos, ◌+ℤ◌, int_laws, parts_of_eq, +ℤ_assoc}
use dlmm_sdk.Rebalance.{RebalancePositionBinData, total_loop}

total_loop-add :
    (field : RebalancePositionBinData → ℤ) (a t : ℤ) (bins : List RebalancePositionBinData)
    → total_loop field (a +ℤ t) bins ≡ a +ℤ total_loop field t bins
unfolding total_loop
total_loop-add field a t [] = refl
total_loop-add field a t (b ∷ bins) =
    ap (λ n. total_loop field n bins) (+ℤ_assoc a t (field b))
    ∙ total_loop-add field a (t +ℤ field b) bins

-- The total of one field.
abbrev pub total : (RebalancePositionBinData → ℤ) → List RebalancePositionBinData → ℤ
total field bins = total_loop field (pos 0) bins

pub total-cons :
    (field : RebalancePositionBinData → ℤ) (b : RebalancePositionBinData)
    (bins : List RebalancePositionBinData)
    → total field (b ∷ bins) ≡ field b +ℤ total field bins
unfolding total_loop
total-cons field b bins =
    let e : pos 0 +ℤ field b ≡ field b +ℤ pos 0 = omega int_laws in
    ap (λ n. total_loop field n bins) e ∙ total_loop-add field (field b) (pos 0) bins

pub swap_head :
    (field : RebalancePositionBinData → ℤ) (b b' : RebalancePositionBinData)
    (bins : List RebalancePositionBinData) (r r' : ℤ)
    → field b' +ℤ r' ≡ field b +ℤ r
    → total field (b' ∷ bins) +ℤ r' ≡ total field (b ∷ bins) +ℤ r
swap_head field b b' bins r r' e = omega (
  int_laws,
  parts_of_eq _ _ e,
  parts_of_eq _ _ (total-cons field b bins),
  parts_of_eq _ _ (total-cons field b' bins),
)

pub swap_tail :
    (field : RebalancePositionBinData → ℤ) (b : RebalancePositionBinData)
    (bins bins' : List RebalancePositionBinData) (r r' : ℤ)
    → total field bins' +ℤ r' ≡ total field bins +ℤ r
    → total field (b ∷ bins') +ℤ r' ≡ total field (b ∷ bins) +ℤ r
swap_tail field b bins bins' r r' e = omega (
  int_laws,
  parts_of_eq _ _ e,
  parts_of_eq _ _ (total-cons field b bins),
  parts_of_eq _ _ (total-cons field b bins'),
)

pub total-sum :
    (f g : RebalancePositionBinData → ℤ) (bins : List RebalancePositionBinData)
    → total (λ b. f b +ℤ g b) bins ≡ total f bins +ℤ total g bins
unfolding total_loop
total-sum f g [] = omega int_laws
total-sum f g (b ∷ bins) = omega (
  int_laws,
  parts_of_eq _ _ (total-sum f g bins),
  parts_of_eq _ _ (total-cons (λ b. f b +ℤ g b) b bins),
  parts_of_eq _ _ (total-cons f b bins),
  parts_of_eq _ _ (total-cons g b bins),
)
