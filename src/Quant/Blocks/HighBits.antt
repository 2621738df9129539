-- ===== src/Quant/Blocks/HighBits.antt =====
-- The fifth bits of Q5_0: the decoder takes those of the second half 12 places, not 16, behind those of
-- the first, so it never reads the upper four.
use etha_jhol.Common.{
  ℕ, zero, suc, ◌+◌, ◌*◌, ◌/◌, ◌%◌, ◌^◌, ◌<◌, ◌≡◌, ◌≢◌, sym, ap, ap₂, ◌∙◌, arith, ◌++◌,
}
use native.Mathlib.Nat.{pow-suc, div-div-eq-div-mul}
use etha_jhol.Quant.Blocks.{Block, Scalars, half_at, u32_at, shr, deq_q5_0}
use etha_jhol.Quant.Half.{half_bits}
use etha_jhol.Quant.Blocks.Extensional.{tabulate_from-ext}

shr-suc : (x k : ℕ) → shr x (suc k) ≡ shr (x / 2) k
shr-suc x k =
    let twice : 2 ^ suc k ≡ 2 * 2 ^ k = omega (arith, pow-suc 2 k) in
    ap (λ d. x / d) twice ∙ sym (div-div-eq-div-mul x 2 (2 ^ k))

-- Adding a multiple of 2^n leaves the bits below n alone.
bit-add_mul : (a t n k : ℕ) → k < n → shr (a + t * 2 ^ n) k % 2 ≡ shr a k % 2
bit-add_mul a t zero k lt = absurd (omega arith)
bit-add_mul a t (suc n) zero lt =
    let twice : t * 2 ^ suc n ≡ t * 2 ^ n * 2 = grind (arith, pow-suc 2 n) in rw twice (omega arith)
bit-add_mul a t (suc n) (suc k) lt =
    let twice : t * 2 ^ suc n ≡ t * 2 ^ n * 2 = grind (arith, pow-suc 2 n) in
    let half : (a + t * 2 ^ suc n) / 2 ≡ a / 2 + t * 2 ^ n = rw twice (omega arith) in
    rw (shr-suc (a + t * 2 ^ suc n) k, shr-suc a k, half) (bit-add_mul (a / 2) t n k (omega arith))

module _ {F : Type 0} (fl : Scalars F) (at at' : Block) (others : (i : ℕ) → i ≢ 5 → at i ≡ at' i)
    (lower : at 5 % 16 ≡ at' 5 % 16) where
  same_bit : (k : ℕ) → k < 28 → shr (u32_at at 2) k % 2 ≡ shr (u32_at at' 2) k % 2
  same_bit k lt =
      let low = at 2 + at 3 * 2 ^ 8 + (at 4 + at 5 % 16 * 2 ^ 8) * 2 ^ 16 in
      let here : u32_at at 2 ≡ low + at 5 / 16 * 2 ^ 28 = omega arith in
      let there : u32_at at' 2 ≡ low + at' 5 / 16 * 2 ^ 28 =
        omega
          (arith, lower, others 2 (omega arith), others 3 (omega arith), others 4 (omega arith)) in
      ap (λ x. shr x k % 2) here
      ∙ bit-add_mul low (at 5 / 16) 28 k lt
      ∙ sym (bit-add_mul low (at' 5 / 16) 28 k lt)
      ∙ sym (ap (λ x. shr x k % 2) there)

  same_scale : half_at fl at 0 ≡ half_at fl at' 0
  same_scale =
      ap₂ (λ a b. fl.of_bits (half_bits (a + b * 2 ^ 8))) (others 0 (omega arith))
        (others 1 (omega arith))

  same_value :
      (a b k : ℕ)
      → k < 28
      → a ≡ b
      → fl.mul (fl.diff (a + shr (u32_at at 2) k % 2 * 16) 16) (half_at fl at 0)
        ≡ fl.mul (fl.diff (b + shr (u32_at at' 2) k % 2 * 16) 16) (half_at fl at' 0)
  same_value a b k lt same =
      ap₂ (λ n d. fl.mul (fl.diff n 16) d) (ap₂ (λ x y. x + y * 16) same (same_bit k lt)) same_scale

  -- Blocks of Q5_0 that differ only in the upper four of the 32 fifth bits are decoded alike.
  pub deq_q5_0-loses : deq_q5_0 fl at ≡ deq_q5_0 fl at'
  unfolding deq_q5_0
  deq_q5_0-loses =
      ap₂ ◌++◌
        (tabulate_from-ext 0 16 _ _ (λ j lt.
          same_value (at (6 + j) % 16) (at' (6 + j) % 16) j (omega arith)
            (ap (λ b. b % 16) (others (6 + j) (omega arith)))))
        (tabulate_from-ext 0 16 _ _ (λ j lt.
          same_value (at (6 + j) / 16) (at' (6 + j) / 16) (j + 12) (omega arith)
            (ap (λ b. b / 16) (others (6 + j) (omega arith)))))
