-- ===== src/Quant/Blocks/Ternary.antt =====
-- TQ1_0: five ternary digits in a byte, and what the decoder makes of a block of them.
use etha_jhol.Common.{
  ℕ, zero, suc, ◌+◌, ◌*◌, ◌/◌, ◌%◌, ◌<◌, ◌≡◌, refl, ap, ap₂, ◌∙◌, arith, Bool, true, ◌&&◌, ◌++◌,
  concat, ltb, ltb→lt, ◌==◌, if◌then◌else◌, lt→ltb, Bool-cases, inl, inr,
}
use etha_jhol.Common.Numbers.{passes, passes-below}
use etha_jhol.Quant.Blocks.{Block, Scalars, tabulate_from, tabulate, flat, half_at, trit, deq_tq1_0}
use etha_jhol.Quant.Blocks.Extensional.{tabulate_from-ext}

-- A number below 243 as a byte: the least byte that is not below 256/243 times the number.
byte_of : ℕ → ℕ
byte_of x = (x * 256 + 242) / 243

-- Five digits, the first of the highest weight.
unfoldable pub packed : (ℕ → ℕ) → ℕ
unfolding byte_of
packed t = byte_of (t 0 * 81 + t 1 * 27 + t 2 * 9 + t 3 * 3 + t 4)

abbrev digits_right : ℕ → Bool
digits_right x =
    (trit (byte_of x) 0 == x / 81)
    && ((trit (byte_of x) 1 == x / 27 % 3)
        && ((trit (byte_of x) 2 == x / 9 % 3)
            && ((trit (byte_of x) 3 == x / 3 % 3) && (trit (byte_of x) 4 == x % 3))))

all_digits_right : passes 0 243 digits_right ≡ true
unfolding passes byte_of trit
all_digits_right = refl

digits :
    (x : ℕ)
    → digits_right x ≡ true
    → (trit (byte_of x) 0 ≡ x / 81)
      × (trit (byte_of x) 1 ≡ x / 27 % 3)
      × (trit (byte_of x) 2 ≡ x / 9 % 3)
      × (trit (byte_of x) 3 ≡ x / 3 % 3)
      × (trit (byte_of x) 4 ≡ x % 3)
digits x h = (ground arith, ground arith, ground arith, ground arith, ground arith)

five_digits :
    (a b c d e : ℕ)
    → a < 3
    → b < 3
    → c < 3
    → d < 3
    → e < 3
    → let byte = byte_of (a * 81 + b * 27 + c * 9 + d * 3 + e) in
      (trit byte 0 ≡ a)
      × (trit byte 1 ≡ b)
      × (trit byte 2 ≡ c)
      × (trit byte 3 ≡ d)
      × (trit byte 4 ≡ e)
five_digits a b c d e ha hb hc hd he =
    let x = a * 81 + b * 27 + c * 9 + d * 3 + e in
    let (p, q, r, s, u) = digits x (passes-below 243 digits_right all_digits_right (omega arith)) in
    (p ∙ omega arith, q ∙ omega arith, r ∙ omega arith, s ∙ omega arith, u ∙ omega arith)

-- Decoding gives the digits of a byte back.
trit-packed : (t : ℕ → ℕ) → ((n : ℕ) → n < 5 → t n < 3) → (n : ℕ) → n < 5 → trit (packed t) n ≡ t n
unfolding packed
trit-packed t small n lt = at_digit n lt
  where
    all :
        let byte = packed t in
        (trit byte 0 ≡ t 0)
        × (trit byte 1 ≡ t 1)
        × (trit byte 2 ≡ t 2)
        × (trit byte 3 ≡ t 3)
        × (trit byte 4 ≡ t 4)
    all =
        five_digits (t 0) (t 1) (t 2) (t 3) (t 4) (small 0 (omega arith)) (small 1 (omega arith))
          (small 2 (omega arith)) (small 3 (omega arith)) (small 4 (omega arith))

    at_digit : (k : ℕ) → k < 5 → trit (packed t) k ≡ t k
    at_digit zero h = all.0
    at_digit (suc zero) h = all.1
    at_digit (suc (suc zero)) h = all.2
    at_digit (suc (suc (suc zero))) h = all.3
    at_digit (suc (suc (suc (suc zero)))) h = all.4
    at_digit (suc (suc (suc (suc (suc k))))) h = absurd (omega arith)

-- The block holds the 256 digits `c`: five digits in each of the first 48 bytes, in planes of 32 and of
-- 16 digits, and four in each of the next 4.
pub record HoldsDigits (at : Block) (c : ℕ → ℕ) : Type 0 where
  pub small : (i : ℕ) → i < 256 → c i < 3
  pub first : (i : ℕ) → i < 32 → at i ≡ packed (λ n. c (n * 32 + i))
  pub second : (i : ℕ) → i < 16 → at (32 + i) ≡ packed (λ n. c (160 + n * 16 + i))
  pub third :
      (i : ℕ) → i < 4 → at (48 + i) ≡ packed (λ n. if ltb n 4 then c (240 + n * 4 + i) else 0)

-- What digit `i` stands for.
abbrev pub digit_value : {F : Type 0} → Scalars F → Block → (ℕ → ℕ) → ℕ → F
digit_value fl at c i = fl.mul (fl.diff (c i) 1) (half_at fl at 52)

module _ {F : Type 0} (fl : Scalars F) {at : Block} {c : ℕ → ℕ} (h : HoldsDigits at c) where
  open fl use {diff, mul}

  abbrev last_plane : ℕ → ℕ → ℕ
  last_plane i n = if ltb n 4 then c (240 + n * 4 + i) else 0

  last_plane-small : (i : ℕ) → i < 4 → (n : ℕ) → n < 5 → last_plane i n < 3
  last_plane-small i li n ln = elim (Bool-cases (ltb n 4)) [
    | inl low ↦ rw low (h.small _ (omega (arith, ltb→lt n 4 low)))
    | inr high ↦ rw high (omega arith)
  ]

  digit_at :
      (t : ℕ → ℕ)
      → ((n : ℕ) → n < 5 → t n < 3)
      → (k n : ℕ) → at k ≡ packed t
      → n < 5
      → trit (at k) n ≡ t n
  digit_at t small k n holds lt = ap (λ b. trit b n) holds ∙ trit-packed t small n lt

  -- A plane of digits, from the equation of each byte.
  plane :
      (rows width offset : ℕ) (digit : ℕ → ℕ → ℕ)
      → ((i n : ℕ) → i < width → n < rows → trit (at (offset + i)) n ≡ digit n i)
      → flat rows
          (λ n. tabulate width (λ i. mul (diff (trit (at (offset + i)) n) 1) (half_at fl at 52)))
        ≡ flat rows (λ n. tabulate width (λ i. mul (diff (digit n i) 1) (half_at fl at 52)))
  plane rows width offset digit same = ap concat (
      tabulate_from-ext 0 rows _ _ (λ n ln. tabulate_from-ext 0 width _ _ (λ i li.
        ap (λ d. mul (diff d 1) (half_at fl at 52)) (same i n (omega arith) (omega arith)))))

  all_values :
      flat 5 (λ n. tabulate 32 (λ i. digit_value fl at c (n * 32 + i)))
        ++ flat 5 (λ n. tabulate 16 (λ i. digit_value fl at c (160 + n * 16 + i)))
        ++ flat 4 (λ n. tabulate 4 (λ i. digit_value fl at c (240 + n * 4 + i)))
      ≡ tabulate 256 (digit_value fl at c)
  unfolding tabulate_from
  all_values = refl

  -- The decoder of TQ1_0 gives back each digit of a block, less 1, times the block's scale.
  pub deq_tq1_0-values : deq_tq1_0 fl at ≡ tabulate 256 (digit_value fl at c)
  unfolding deq_tq1_0 tabulate_from
  deq_tq1_0-values =
      ap₂ ◌++◌
        (plane 5 32 0 (λ n i. c (n * 32 + i))
          (λ i n li ln.
            digit_at (λ k. c (k * 32 + i)) (λ k lk. h.small _ (omega arith)) (0 + i) n
              (ap at (omega arith) ∙ h.first i li) (omega arith)))
        (ap₂ ◌++◌
          (plane 5 16 32 (λ n i. c (160 + n * 16 + i))
            (λ i n li ln.
              digit_at (λ k. c (160 + k * 16 + i)) (λ k lk. h.small _ (omega arith)) (32 + i) n
                (h.second i li) (omega arith)))
          (plane 4 4 48 (λ n i. c (240 + n * 4 + i))
            (λ i n li ln.
              digit_at (last_plane i) (last_plane-small i li) (48 + i) n (h.third i li)
                (omega arith)
              ∙ rw (lt→ltb n 4 ln) refl)))
      ∙ all_values
