-- ===== src/KvCache/Pages/Size.antt =====
-- How many pages a number of tokens takes.
use etha_jhol.Common.{ℕ, ◌+◌, ◌-◌, ◌/◌, ◌≤◌, ◌<◌, ◌≡◌, ap, ◌∙◌, arith}
use native.Mathlib.Nat.{div-mul-le_self, le-div_iff_mul-le, add-div_right, div-eq_of_lt}
use etha_jhol.KvCache.Pages.{Config, pages_for}

div_mono : (a b k : ℕ) → 0 < k → a ≤ b → a / k ≤ b / k
div_mono a b k pos le = (le-div_iff_mul-le pos).1 (omega (arith, div-mul-le_self a k))

module _ (c : Config) (pos : 0 < c.page_tokens) where
  pub pages_for_mono : (m n : ℕ) → m ≤ n → pages_for c m ≤ pages_for c n
  unfolding pages_for
  pages_for_mono m n le = div_mono _ _ c.page_tokens pos (omega arith)

  pub pages_for-zero : pages_for c 0 ≡ 0
  unfolding pages_for
  pages_for-zero = div-eq_of_lt (omega arith)

  -- The page of the next token is the last that it takes.
  pub pages_for-suc : (n : ℕ) → pages_for c (n + 1) ≡ n / c.page_tokens + 1
  unfolding pages_for
  pages_for-suc n =
      ap (λ m. m / c.page_tokens) {x = n + 1 + c.page_tokens - 1} {y = n + c.page_tokens}
        (omega arith)
      ∙ add-div_right n pos

  pub pages_for-le : (n : ℕ) → pages_for c n ≤ n / c.page_tokens + 1
  pages_for-le n = omega (arith, pages_for-suc n, pages_for_mono n (n + 1) (omega arith))

  pub div-le-pages_for : (n : ℕ) → n / c.page_tokens ≤ pages_for c n
  unfolding pages_for
  div-le-pages_for n = div_mono _ _ c.page_tokens pos (omega arith)
