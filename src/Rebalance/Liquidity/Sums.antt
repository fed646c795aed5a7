-- ===== src/Rebalance/Liquidity/Sums.antt =====
-- rebalance/liquidity_strategy: sums of one field over the amounts of the bins.
use dlmm_sdk.Prelude.{◌≡◌, refl, ap, ◌∙◌, List, [], ◌∷◌, ◌++◌, All}
use dlmm_sdk.Prelude.Int.{ℤ, pos, ◌+ℤ◌, int_laws, parts_of_eq, +ℤ_assoc}
use dlmm_sdk.Rebalance.Amounts.{AmountIntoBin}
use dlmm_sdk.Rebalance.Liquidity.{reduce_amounts}

module _ (field : AmountIntoBin → ℤ) where
  reduce_from :
      (a acc : ℤ) (bins : List AmountIntoBin)
      → reduce_amounts field (a +ℤ acc) bins ≡ a +ℤ reduce_amounts field acc bins
  unfolding reduce_amounts
  reduce_from a acc [] = refl
  reduce_from a acc (b ∷ bins) = rw (+ℤ_assoc a acc (field b)) (reduce_from a (acc +ℤ field b) bins)

  pub reduce-cons :
      (b : AmountIntoBin) (bins : List AmountIntoBin)
      → reduce_amounts field (pos 0) (b ∷ bins) ≡ field b +ℤ reduce_amounts field (pos 0) bins
  unfolding reduce_amounts
  reduce-cons b bins =
      let e : pos 0 +ℤ field b ≡ field b +ℤ pos 0 = omega int_laws in
      ap (λ acc. reduce_amounts field acc bins) e ∙ reduce_from (field b) (pos 0) bins

  pub reduce-append :
      (xs ys : List AmountIntoBin)
      → reduce_amounts field (pos 0) (xs ++ ys)
        ≡ reduce_amounts field (pos 0) xs +ℤ reduce_amounts field (pos 0) ys
  unfolding reduce_amounts
  reduce-append [] ys = omega int_laws
  reduce-append (x ∷ xs) ys = omega (
    int_laws,
    parts_of_eq _ _ (reduce-cons x xs),
    parts_of_eq _ _ (reduce-cons x (xs ++ ys)),
    parts_of_eq _ _ (reduce-append xs ys),
  )

  pub reduce_zeros :
      (bins : List AmountIntoBin)
      → All (λ b. field b ≡ pos 0) bins
      → reduce_amounts field (pos 0) bins ≡ pos 0
  unfolding reduce_amounts
  reduce_zeros [] h = refl
  reduce_zeros (b ∷ bins) (h, hs) = omega (
    int_laws,
    parts_of_eq _ _ (reduce-cons b bins),
    parts_of_eq _ _ h,
    parts_of_eq _ _ (reduce_zeros bins hs),
  )
