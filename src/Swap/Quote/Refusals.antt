-- ===== src/Swap/Quote/Refusals.antt =====
-- index.ts, `swapQuote` and `swapQuoteExactOut`: the bounds that the slippage sets.
use native.Mathlib.Nat.{div-add-mod', mul-le-mul, le_refl}
use dlmm_sdk.Prelude.{ℕ, ◌+◌, ◌-◌, ◌*◌, ◌/◌, ◌≤◌, ◌<◌, ◌≡◌, refl, ap, ◌∙◌, arith}
use dlmm_sdk.Prelude.Int.{pos, ◌-ℤ◌, ◌+ℤ◌, ◌*ℤ◌, tdiv, int_laws}
use dlmm_sdk.Swap.Quote.{min_out_of}
use dlmm_sdk.Swap.Quote.Output.{max_in_of}

pos_times : (a b : ℕ) → pos a *ℤ pos b ≡ pos (a * b)
unfolding ◌*ℤ◌
pos_times a b = ground arith

floor_of : (n : ℕ) → (n / 10000 * 10000 ≤ n) × (n < n / 10000 * 10000 + 10000)
floor_of n = grind (arith, div-add-mod' n 10000)

ten_thousand : (n : ℕ) → tdiv (pos n) 10000 ≡ pos (n / 10000)
unfolding tdiv
ten_thousand n = refl

-- For a slippage of at most 10000 basis points, the least output is the output less the slippage,
-- rounded down, and so at most the output; the most input is the input with the slippage, rounded
-- down, and so at least the input.
pub slippage_bounds :
    (amount s : ℕ)
    → s ≤ 10000
    → ((least : ℕ) × (min_out_of amount (pos s) ≡ pos least)
        × (least * 10000 ≤ amount * (10000 - s))
        × (amount * (10000 - s) < least * 10000 + 10000)
        × (least ≤ amount))
      × ((most : ℕ) × (max_in_of amount (pos s) ≡ pos most)
          × (most * 10000 ≤ amount * (10000 + s))
          × (amount * (10000 + s) < most * 10000 + 10000)
          × (amount ≤ most))
unfolding min_out_of max_in_of
slippage_bounds amount s h =
    let less : pos 10000 -ℤ pos s ≡ pos (10000 - s) = omega (int_laws, h) in
    let more : pos 10000 +ℤ pos s ≡ pos (10000 + s) = omega int_laws in
    let down = amount * (10000 - s) in
    let up = amount * (10000 + s) in
    let (dl, dh) = floor_of down in
    let (ul, uh) = floor_of up in
    let d : down ≤ amount * 10000 = mul-le-mul (le_refl amount) (omega arith) in
    let u : amount * 10000 ≤ up = mul-le-mul (le_refl amount) (omega arith) in
    (
      (
        down / 10000,
        ap (λ z. tdiv (pos amount *ℤ z) 10000) less
            ∙ ap (λ z. tdiv z 10000) (pos_times amount (10000 - s))
            ∙ ten_thousand down,
        dl,
        dh,
        omega (arith, dl, d),
      ),
      (
        up / 10000,
        ap (λ z. tdiv (pos amount *ℤ z) 10000) more
            ∙ ap (λ z. tdiv z 10000) (pos_times amount (10000 + s))
            ∙ ten_thousand up,
        ul,
        uh,
        omega (arith, uh, u),
      ),
    )
