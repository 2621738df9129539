-- ===== src/Quant/Blocks.antt =====
-- The decoders of src/quant.c for one block. A block is a function from offsets to bytes. Integers of the
-- machine are little-endian, and the parts of an | have no bit in common, so it is a sum.
pub mod Extensional
pub mod HighBits
pub mod Lengths
pub mod SuperBlock
pub mod Ternary
pub mod Table
use etha_jhol.Common.{
  ℕ, zero, suc, ◌+◌, ◌-◌, ◌*◌, ◌/◌, ◌%◌, ◌^◌, Bool, List, [], ◌∷◌, ◌++◌, concat, get_or, ltb, ◌==◌,
  if◌then◌else◌,
}
use etha_jhol.Quant.Half.{half_bits}

-- The arithmetic of `float`: the value of a binary32 pattern, that of a binary64 pattern converted, and
-- `(float)(a - b)` for small whole numbers.
pub record Scalars (F : Type 0) : Type 0 where
  pub of_bits : ℕ → F
  pub of_bits64 : ℕ → F
  pub diff : ℕ → ℕ → F
  pub add : F → F → F
  pub sub : F → F → F
  pub mul : F → F → F
  pub neg : F → F

-- `f i`, `f (i + 1)` and so on, `n` of them.
unfoldable pub tabulate_from {ℓ} : {A : Type ℓ} → ℕ → ℕ → (ℕ → A) → List A
tabulate_from i zero f = []
tabulate_from i (suc n) f = f i ∷ tabulate_from (suc i) n f

abbrev pub tabulate {ℓ} : {A : Type ℓ} → ℕ → (ℕ → A) → List A
tabulate n f = tabulate_from 0 n f

-- A loop that writes a list in each round.
abbrev pub flat {ℓ} : {A : Type ℓ} → ℕ → (ℕ → List A) → List A
flat n f = concat (tabulate n f)

abbrev pub Block : Type 0
Block = ℕ → ℕ

-- The bits of a byte from bit `k` on.
abbrev pub shr : ℕ → ℕ → ℕ
shr x k = x / 2 ^ k

abbrev pub u16_at : Block → ℕ → ℕ
u16_at at i = at i + at (i + 1) * 2 ^ 8

abbrev pub u32_at : Block → ℕ → ℕ
u32_at at i = u16_at at i + u16_at at (i + 2) * 2 ^ 16

-- `get_scale_min_k4`: the scale and the minimum of sub-block `j`, with the 12 bytes at `q`.
unfoldable pub scale_k4 : Block → ℕ → ℕ → ℕ
scale_k4 at q j =
    if ltb j 4 then at (q + j) % 64 else at (q + j + 4) % 16 + at (q + j - 4) / 64 * 16

unfoldable pub min_k4 : Block → ℕ → ℕ → ℕ
min_k4 at q j = if ltb j 4 then at (q + j + 4) % 64 else at (q + j + 4) / 16 + at (q + j) / 64 * 16

-- The scales of Q3_K: the word operations act on each byte alone.
unfoldable pub scale_q3 : Block → ℕ → ℕ
scale_q3 at j =
    let low = at (96 + j % 8) in
    let high = at (96 + 8 + j % 4) in
    (if ltb j 8 then low % 16 else low / 16) + shr high (j / 4 * 2) % 4 * 16

-- `kvalues_iq4nl`, each entry with 127 added.
unfoldable pub kvalues_iq4nl : List ℕ
kvalues_iq4nl =
    0 ∷ 23 ∷ 44 ∷ 62 ∷ 78 ∷ 92 ∷ 105 ∷ 117 ∷ 128 ∷ 140 ∷ 152 ∷ 165 ∷ 180 ∷ 196 ∷ 216 ∷ 240 ∷ []

-- The ternary digit that `byte * 3^n`, cut to a byte, has in front.
unfoldable pub trit : ℕ → ℕ → ℕ
trit byte n = byte * 3 ^ n % 2 ^ 8 * 3 / 2 ^ 8

module _ {F : Type 0} (fl : Scalars F) where
  open fl use {of_bits, diff, add, sub, mul, neg}

  abbrev pub half_at : Block → ℕ → F
  half_at at i = of_bits (half_bits (u16_at at i))

  abbrev pub nat : ℕ → F
  nat n = diff n 0

  -- `(float)(int8_t)b`
  abbrev pub signed : ℕ → F
  signed b = if ltb b 128 then diff b 0 else diff b 256

  unfoldable pub deq_q2_k : Block → List F
  deq_q2_k at =
      let d = half_at at 80 in
      let mn = half_at at 82 in
      let part = λ (n j k l : ℕ).
        let sc = at (n * 8 + j * 2 + k) in
        sub (mul (mul d (nat (sc % 16))) (nat (shr (at (16 + n * 32 + k * 16 + l)) (j * 2) % 4)))
          (mul mn (nat (sc / 16))) in
      flat 2 (λ n. flat 4 (λ j. tabulate 16 (part n j 0) ++ tabulate 16 (part n j 1)))

  unfoldable pub deq_q3_k : Block → List F
  unfolding scale_q3
  deq_q3_k at =
      let part = λ (n j k l : ℕ).
        let dl = mul (half_at at 108) (diff (scale_q3 at (n * 8 + j * 2 + k)) 32) in
        let high = shr (at (k * 16 + l)) (n * 4 + j) % 2 in
        mul dl
          (diff (shr (at (32 + n * 32 + k * 16 + l)) (j * 2) % 4) (if high == 0 then 4 else 0)) in
      flat 2 (λ n. flat 4 (λ j. tabulate 16 (part n j 0) ++ tabulate 16 (part n j 1)))

  unfoldable pub deq_q4_k : Block → List F
  deq_q4_k at =
      let code = λ (is c : ℕ).
        sub (mul (mul (half_at at 0) (nat (scale_k4 at 4 is))) (nat c))
          (mul (half_at at 2) (nat (min_k4 at 4 is))) in
      flat 4 (λ j.
        tabulate 32 (λ l. code (j * 2) (at (16 + j * 32 + l) % 16))
        ++ tabulate 32 (λ l. code (j * 2 + 1) (at (16 + j * 32 + l) / 16)))

  unfoldable pub deq_q5_k : Block → List F
  deq_q5_k at =
      let code = λ (is c : ℕ).
        sub (mul (mul (half_at at 0) (nat (scale_k4 at 4 is))) (nat c))
          (mul (half_at at 2) (nat (min_k4 at 4 is))) in
      let high = λ (is l : ℕ). shr (at (16 + l)) is % 2 * 16 in
      flat 4 (λ j.
        tabulate 32 (λ l. code (j * 2) (at (48 + j * 32 + l) % 16 + high (j * 2) l))
        ++ tabulate 32 (λ l. code (j * 2 + 1) (at (48 + j * 32 + l) / 16 + high (j * 2 + 1) l)))

  unfoldable pub deq_q6_k : Block → List F
  deq_q6_k at =
      let code = λ (n k l low : ℕ).
        mul (mul (half_at at 208) (signed (at (192 + n * 8 + l / 16 + k * 2))))
          (diff (low + shr (at (128 + n * 32 + l)) (k * 2) % 4 * 16) 32) in
      flat 2 (λ n.
        tabulate 32 (λ l. code n 0 l (at (n * 64 + l) % 16))
        ++ tabulate 32 (λ l. code n 1 l (at (n * 64 + l + 32) % 16))
        ++ tabulate 32 (λ l. code n 2 l (at (n * 64 + l) / 16))
        ++ tabulate 32 (λ l. code n 3 l (at (n * 64 + l + 32) / 16)))

  unfoldable pub deq_q8_k : Block → List F
  deq_q8_k at = tabulate 256 (λ j. mul (of_bits (u32_at at 0)) (signed (at (4 + j))))

  unfoldable pub deq_q4_0 : Block → List F
  deq_q4_0 at =
      let d = half_at at 0 in
      tabulate 16 (λ j. mul (diff (at (2 + j) % 16) 8) d)
      ++ tabulate 16 (λ j. mul (diff (at (2 + j) / 16) 8) d)

  unfoldable pub deq_q4_1 : Block → List F
  deq_q4_1 at =
      let d = half_at at 0 in
      let m = half_at at 2 in
      tabulate 16 (λ j. add (mul (nat (at (4 + j) % 16)) d) m)
      ++ tabulate 16 (λ j. add (mul (nat (at (4 + j) / 16)) d) m)

  unfoldable pub deq_q5_0 : Block → List F
  deq_q5_0 at =
      let qh = u32_at at 2 in
      let d = half_at at 0 in
      tabulate 16 (λ j. mul (diff (at (6 + j) % 16 + shr qh j % 2 * 16) 16) d)
      ++ tabulate 16 (λ j. mul (diff (at (6 + j) / 16 + shr qh (j + 12) % 2 * 16) 16) d)

  unfoldable pub deq_q5_1 : Block → List F
  deq_q5_1 at =
      let qh = u32_at at 4 in
      let d = half_at at 0 in
      let m = half_at at 2 in
      tabulate 16 (λ j. add (mul (nat (at (8 + j) % 16 + shr qh j % 2 * 16)) d) m)
      ++ tabulate 16 (λ j. add (mul (nat (at (8 + j) / 16 + shr qh (j + 12) % 2 * 16)) d) m)

  unfoldable pub deq_q8_0 : Block → List F
  deq_q8_0 at = tabulate 32 (λ j. mul (signed (at (2 + j))) (half_at at 0))

  unfoldable pub deq_iq4_nl : Block → List F
  unfolding kvalues_iq4nl
  deq_iq4_nl at =
      let d = half_at at 0 in
      let value = λ (code : ℕ). diff (get_or kvalues_iq4nl code 0) 127 in
      tabulate 16 (λ j. mul d (value (at (2 + j) % 16)))
      ++ tabulate 16 (λ j. mul d (value (at (2 + j) / 16)))

  unfoldable pub deq_tq1_0 : Block → List F
  deq_tq1_0 at =
      let code = λ (i n : ℕ). mul (diff (trit (at i) n) 1) (half_at at 52) in
      flat 5 (λ n. tabulate 32 (λ m. code m n))
      ++ flat 5 (λ n. tabulate 16 (λ m. code (32 + m) n))
      ++ flat 4 (λ n. tabulate 4 (λ j. code (48 + j) n))

  unfoldable pub deq_tq2_0 : Block → List F
  deq_tq2_0 at =
      let d = half_at at 64 in
      flat 2
        (λ j. flat 4 (λ l. tabulate 32 (λ m. mul (diff (shr (at (j * 32 + m)) (l * 2) % 4) 1) d)))

  unfoldable pub deq_q1_0 : Block → List F
  deq_q1_0 at =
      let d = half_at at 0 in
      tabulate 128 (λ j. if shr (at (2 + j / 8)) (j % 8) % 2 == 0 then neg d else d)

  unfoldable pub deq_q2_0 : Block → List F
  deq_q2_0 at =
      let d = half_at at 0 in
      tabulate 64 (λ j. mul (diff (shr (at (2 + j / 4)) (j % 4 * 2) % 4) 1) d)
