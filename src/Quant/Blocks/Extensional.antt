-- ===== src/Quant/Blocks/Extensional.antt =====
-- Loops that agree in every round write the same values.
use etha_jhol.Common.{ℕ, zero, suc, ◌+◌, ◌<◌, ◌≡◌, refl, ap₂, arith, ◌∷◌}
use etha_jhol.Quant.Blocks.{tabulate_from}

module _ {ℓ} {A : Type ℓ} where
  pub tabulate_from-ext :
      (i n : ℕ) (f g : ℕ → A)
      → ((k : ℕ) → k < i + n → f k ≡ g k)
      → tabulate_from i n f ≡ tabulate_from i n g
  unfolding tabulate_from
  tabulate_from-ext i zero f g h = refl
  tabulate_from-ext i (suc n) f g h =
      ap₂ ◌∷◌ (h i (omega arith)) (tabulate_from-ext (suc i) n f g (λ k lt. h k (omega arith)))
