-- ===== src/Gguf/File/Numbers.antt =====
-- A number that the metadata keep as text is read back as it was.
use etha_jhol.Common.{
  ℕ, zero, suc, ◌+◌, ◌-◌, ◌*◌, ◌/◌, ◌%◌, ◌^◌, ◌<◌, ◌≡◌, refl, ap, ◌∙◌, inl, inr, arith, true, false,
  ◌&&◌, ◌||◌, some, List, [], ◌∷◌, leb, ◌==◌, ==_iff, Bool-cases,
}
use etha_jhol.Gguf.Reader.{digits_from, fmt_u64}
use etha_jhol.Gguf.File.{is_blank, is_digit, digits_value, signed_value, strtoull}
use native.Mathlib.Nat.{pow-suc}

digit_round :
    (v d : ℕ) (s : List ℕ)
    → d < 10
    → v * 10 + d < 2 ^ 64
    → digits_value v ((b'0' + d) ∷ s) ≡ digits_value (v * 10 + d) s
unfolding digits_value is_digit
digit_round v d s small fits =
    let back : b'0' + d - b'0' ≡ d = omega arith in
    let digit : (leb b'0' (b'0' + d) && leb (b'0' + d) b'9') ≡ true = ground arith in
    let over : leb (2 ^ 64) (v * 10 + d) ≡ false = ground arith in rw (digit, back, over) refl

last_digit :
    (n : ℕ) (acc : List ℕ)
    → n / 10 ≡ 0
    → n < 2 ^ 64
    → digits_value 0 ((b'0' + n % 10) ∷ acc) ≡ digits_value n acc
last_digit n acc none_above small =
    let value : 0 * 10 + n % 10 ≡ n = omega (arith, none_above) in
    digit_round 0 (n % 10) acc (omega arith) (omega (arith, value, small))
    ∙ ap (λ (v : ℕ). digits_value v acc) value

inner_digit :
    (n : ℕ) (acc : List ℕ)
    → n < 2 ^ 64
    → digits_value (n / 10) ((b'0' + n % 10) ∷ acc) ≡ digits_value n acc
inner_digit n acc small =
    let value : n / 10 * 10 + n % 10 ≡ n = omega arith in
    digit_round (n / 10) (n % 10) acc (omega arith) (omega (arith, value, small))
    ∙ ap (λ (v : ℕ). digits_value v acc) value

-- The digits that are put in front of `acc`, read from the first one.
digits_value-digits_from :
    (fuel n : ℕ) (acc : List ℕ)
    → n < 10 ^ suc fuel
    → n < 2 ^ 64
    → digits_value 0 (digits_from (suc fuel) n acc) ≡ digits_value n acc
unfolding digits_from
digits_value-digits_from zero n acc bound small =
    let none_above : n / 10 ≡ 0 = omega (arith, bound) in
    let test : (n / 10 == 0) ≡ true = ground (arith, none_above) in
    rw test (last_digit n acc none_above small)
digits_value-digits_from (suc fuel) n acc bound small = elim (Bool-cases (n / 10 == 0)) [
  | inl e ↦ rw e (last_digit n acc ((==_iff (n / 10) 0).0 e) small)
  | inr e ↦
      let fewer : n / 10 < 10 ^ suc fuel = omega (arith, bound, pow-suc 10 (suc fuel)) in
      rw e (
        digits_value-digits_from fuel (n / 10) ((b'0' + n % 10) ∷ acc) fewer (omega (arith, small))
        ∙ inner_digit n acc small)
]

-- A list that begins with a digit.
StartsWithDigit : List ℕ → Type 0
StartsWithDigit s = (d : ℕ) × (rest : List ℕ) × (s ≡ (b'0' + d) ∷ rest) × (d < 10)

digits_from-StartsWithDigit :
    (fuel n : ℕ) (acc : List ℕ) → StartsWithDigit acc → StartsWithDigit (digits_from fuel n acc)
unfolding digits_from StartsWithDigit
digits_from-StartsWithDigit zero n acc h = h
digits_from-StartsWithDigit (suc fuel) n acc h =
    let start : StartsWithDigit ((b'0' + n % 10) ∷ acc) = (n % 10, acc, refl, omega arith) in
    elim (Bool-cases (n / 10 == 0)) [
      | inl e ↦ rw e start
      | inr e ↦ rw e (digits_from-StartsWithDigit fuel (n / 10) ((b'0' + n % 10) ∷ acc) start)
    ]

strtoull-digits :
    (d : ℕ) (rest : List ℕ) {v : ℕ}
    → d < 10
    → digits_value 0 ((b'0' + d) ∷ rest) ≡ some v
    → strtoull ((b'0' + d) ∷ rest) ≡ v
unfolding strtoull is_blank signed_value
strtoull-digits d rest small h =
    let mark : ((b'0' + d == b' ') || (leb 9 (b'0' + d) && leb (b'0' + d) 13)) ≡ false =
      ground arith in
    let minus : (b'0' + d == b'-') ≡ false = ground arith in
    let plus : (b'0' + d == b'+') ≡ false = ground arith in rw (mark, minus, plus, h) refl

digits_from-first : (fuel n : ℕ) (acc : List ℕ) → StartsWithDigit (digits_from (suc fuel) n acc)
unfolding digits_from StartsWithDigit
digits_from-first fuel n acc =
    let start : StartsWithDigit ((b'0' + n % 10) ∷ acc) = (n % 10, acc, refl, omega arith) in
    elim (Bool-cases (n / 10 == 0)) [
      | inl e ↦ rw e start
      | inr e ↦ rw e (digits_from-StartsWithDigit fuel (n / 10) ((b'0' + n % 10) ∷ acc) start)
    ]

read_back : (s : List ℕ) {v : ℕ} → StartsWithDigit s → digits_value 0 s ≡ some v → strtoull s ≡ v
unfolding StartsWithDigit
read_back s (d, rest, e, small) h = rw e (strtoull-digits d rest small (rw e at h))

digits_value-nil : (n : ℕ) → digits_value n [] ≡ some n
unfolding digits_value
digits_value-nil n = refl

strtoull-digits_from : (n : ℕ) → n < 2 ^ 64 → strtoull (digits_from 20 n []) ≡ n
strtoull-digits_from n small =
    read_back (digits_from 20 n []) (digits_from-first 19 n [])
      (digits_value-digits_from 19 n [] (omega (arith, small)) small ∙ digits_value-nil n)

-- Every number below 2^64 that `fmt_u64` writes into the metadata, `strtoull` reads back.
pub strtoull-fmt_u64 : (n : ℕ) → n < 2 ^ 64 → strtoull (fmt_u64 n) ≡ n
unfolding fmt_u64
strtoull-fmt_u64 n small = strtoull-digits_from n small
