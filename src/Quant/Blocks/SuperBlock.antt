-- ===== src/Quant/Blocks/SuperBlock.antt =====
-- Q4_K: the packed scales, minimums and codes of a block of 256 values, and what the decoder makes of them.
use etha_jhol.Common.{
  ℕ, ◌+◌, ◌-◌, ◌*◌, ◌/◌, ◌%◌, ◌<◌, ◌≡◌, refl, sym, ap, ap₂, ◌∙◌, subst, arith, ◌++◌, concat, ltb,
  ltb→lt, ltb→ge, inl, inr, Bool-cases,
}
use etha_jhol.Quant.Blocks.{
  Block, Scalars, tabulate_from, tabulate, flat, half_at, nat, scale_k4, min_k4, deq_q4_k,
}
use etha_jhol.Quant.Blocks.Extensional.{tabulate_from-ext}

-- The block holds the scales `s` and the minimums `m` of its 8 sub-blocks, of 6 bits each, and its 256
-- codes `c`, of 4 bits each. The upper two bits of the last four scales and minimums stand above the
-- first four, and a byte of codes serves two sub-blocks.
pub record Holds (at : Block) (s m c : ℕ → ℕ) : Type 0 where
  pub scales_small : (j : ℕ) → j < 8 → s j < 64
  pub mins_small : (j : ℕ) → j < 8 → m j < 64
  pub codes_small : (i : ℕ) → i < 256 → c i < 16
  pub scales : (j : ℕ) → j < 4 → at (4 + j) ≡ s j + s (j + 4) / 16 * 64
  pub mins : (j : ℕ) → j < 4 → at (8 + j) ≡ m j + m (j + 4) / 16 * 64
  pub both : (j : ℕ) → j < 4 → at (12 + j) ≡ s (j + 4) % 16 + m (j + 4) % 16 * 16
  pub codes :
      (j l : ℕ) → j < 4 → l < 32 → at (16 + j * 32 + l) ≡ c (j * 64 + l) + c (j * 64 + 32 + l) * 16

module _ {at : Block} {s m c : ℕ → ℕ} (h : Holds at s m c) where
  upper_scale :
      (k : ℕ) → k < 4 → at (4 + (k + 4) + 4) % 16 + at (4 + (k + 4) - 4) / 64 * 16 ≡ s (k + 4)
  upper_scale k lt =
      let here : at (4 + (k + 4) + 4) ≡ at (12 + k) = ap at (omega arith) in
      let above : at (4 + (k + 4) - 4) ≡ at (4 + k) = ap at (omega arith) in
      omega (
        arith,
        here,
        above,
        h.both k lt,
        h.scales k lt,
        h.scales_small k (omega arith),
        h.scales_small (k + 4) (omega arith),
      )

  upper_min : (k : ℕ) → k < 4 → at (4 + (k + 4) + 4) / 16 + at (4 + (k + 4)) / 64 * 16 ≡ m (k + 4)
  upper_min k lt =
      let here : at (4 + (k + 4) + 4) ≡ at (12 + k) = ap at (omega arith) in
      let above : at (4 + (k + 4)) ≡ at (8 + k) = ap at (omega arith) in
      omega (
        arith,
        here,
        above,
        h.both k lt,
        h.mins k lt,
        h.mins_small k (omega arith),
        h.mins_small (k + 4) (omega arith),
      )

  scale_k4-eq : (j : ℕ) → j < 8 → scale_k4 at 4 j ≡ s j
  unfolding scale_k4
  scale_k4-eq j lt = elim (Bool-cases (ltb j 4)) [
    | inl low ↦ rw low (omega (arith, h.scales j (ltb→lt j 4 low), h.scales_small j lt))
    | inr high ↦ rw high (
        subst (λ i. at (4 + i + 4) % 16 + at (4 + i - 4) / 64 * 16 ≡ s i) {x = j - 4 + 4}
          (omega (arith, ltb→ge j 4 high)) (upper_scale (j - 4) (omega (arith, ltb→ge j 4 high))))
  ]

  min_k4-eq : (j : ℕ) → j < 8 → min_k4 at 4 j ≡ m j
  unfolding min_k4
  min_k4-eq j lt = elim (Bool-cases (ltb j 4)) [
    | inl low ↦
        let here : at (4 + j + 4) ≡ at (8 + j) = ap at (omega arith) in
        rw low (omega (arith, here, h.mins j (ltb→lt j 4 low), h.mins_small j lt))
    | inr high ↦ rw high (
        subst (λ i. at (4 + i + 4) / 16 + at (4 + i) / 64 * 16 ≡ m i) {x = j - 4 + 4}
          (omega (arith, ltb→ge j 4 high)) (upper_min (j - 4) (omega (arith, ltb→ge j 4 high))))
  ]

-- What code `i` stands for: its sub-block's scale times the code, less the sub-block's minimum.
abbrev pub value : {F : Type 0} → Scalars F → Block → (s m c : ℕ → ℕ) → ℕ → F
value fl at s m c i =
    fl.sub (fl.mul (fl.mul (half_at fl at 0) (nat fl (s (i / 32)))) (nat fl (c i)))
      (fl.mul (half_at fl at 2) (nat fl (m (i / 32))))

module _ {F : Type 0} (fl : Scalars F) {at : Block} {s m c : ℕ → ℕ} (h : Holds at s m c) where
  open fl use {sub, mul}

  low_value :
      (j l : ℕ)
      → j < 4
      → l < 32
      → sub
          (mul
            (mul (half_at fl at 0) (nat fl (scale_k4 at 4 (j * 2))))
            (nat fl (at (16 + j * 32 + l) % 16)))
          (mul (half_at fl at 2) (nat fl (min_k4 at 4 (j * 2))))
        ≡ value fl at s m c (j * 64 + l)
  low_value j l lt lt' =
      let sub_block : (j * 64 + l) / 32 ≡ j * 2 = omega arith in
      let code : at (16 + j * 32 + l) % 16 ≡ c (j * 64 + l) =
        omega (arith, h.codes j l lt lt', h.codes_small (j * 64 + l) (omega arith)) in
      let scale : scale_k4 at 4 (j * 2) ≡ s ((j * 64 + l) / 32) =
        scale_k4-eq h (j * 2) (omega arith) ∙ ap s (sym sub_block) in
      let least : min_k4 at 4 (j * 2) ≡ m ((j * 64 + l) / 32) =
        min_k4-eq h (j * 2) (omega arith) ∙ ap m (sym sub_block) in
      ap₂ sub (ap₂ (λ a b. mul (mul (half_at fl at 0) (nat fl a)) (nat fl b)) scale code)
        (ap (λ a. mul (half_at fl at 2) (nat fl a)) least)

  high_value :
      (j l : ℕ)
      → j < 4
      → l < 32
      → sub
          (mul
            (mul (half_at fl at 0) (nat fl (scale_k4 at 4 (j * 2 + 1))))
            (nat fl (at (16 + j * 32 + l) / 16)))
          (mul (half_at fl at 2) (nat fl (min_k4 at 4 (j * 2 + 1))))
        ≡ value fl at s m c (j * 64 + 32 + l)
  high_value j l lt lt' =
      let sub_block : (j * 64 + 32 + l) / 32 ≡ j * 2 + 1 = omega arith in
      let code : at (16 + j * 32 + l) / 16 ≡ c (j * 64 + 32 + l) =
        omega (arith, h.codes j l lt lt', h.codes_small (j * 64 + l) (omega arith)) in
      let scale : scale_k4 at 4 (j * 2 + 1) ≡ s ((j * 64 + 32 + l) / 32) =
        scale_k4-eq h (j * 2 + 1) (omega arith) ∙ ap s (sym sub_block) in
      let least : min_k4 at 4 (j * 2 + 1) ≡ m ((j * 64 + 32 + l) / 32) =
        min_k4-eq h (j * 2 + 1) (omega arith) ∙ ap m (sym sub_block) in
      ap₂ sub (ap₂ (λ a b. mul (mul (half_at fl at 0) (nat fl a)) (nat fl b)) scale code)
        (ap (λ a. mul (half_at fl at 2) (nat fl a)) least)

  all_values :
      flat 4 (λ j.
        tabulate 32 (λ l. value fl at s m c (j * 64 + l))
        ++ tabulate 32 (λ l. value fl at s m c (j * 64 + 32 + l)))
      ≡ tabulate 256 (value fl at s m c)
  unfolding tabulate_from
  all_values = refl

  -- The decoder of Q4_K gives back each code of a block, with the scale and the minimum of its sub-block.
  pub deq_q4_k-values : deq_q4_k fl at ≡ tabulate 256 (value fl at s m c)
  unfolding deq_q4_k
  deq_q4_k-values =
      ap concat (
        tabulate_from-ext 0 4 _ _ (λ j lt.
          ap₂ ◌++◌ (tabulate_from-ext 0 32 _ _ (λ l lt'. low_value j l (omega arith) (omega arith)))
            (tabulate_from-ext 0 32 _ _ (λ l lt'. high_value j l (omega arith) (omega arith)))))
      ∙ all_values
