-- ===== src/Quant/Half.antt =====
-- `vg_half_to_float` of include/vg/quant.h, as patterns of bits: binary16 to binary32.
use etha_jhol.Common.{
  ℕ, zero, suc, ◌+◌, ◌-◌, ◌*◌, ◌/◌, ◌%◌, ◌^◌, ◌<◌, ◌≡◌, ◌≢◌, ◌↔◌, refl, arith, Bool, true, ◌&&◌,
  ◌||◌, ltb, ◌==◌, ==_iff, if◌then◌else◌,
}
use etha_jhol.Common.Numbers.{passes, passes-below}

-- The loop that shifts the mantissa up to bit 10, with `fuel` rounds: the exponent and the mantissa.
unfoldable pub normalize_from : ℕ → ℕ → ℕ → ℕ × ℕ
normalize_from zero e mant = (e, mant)
normalize_from (suc fuel) e mant =
    let rest = normalize_from fuel (e - 1) (mant * 2) in
    if mant / 0x400 % 2 == 1 then (e, mant) else rest

-- The parts of an | have no bit in common, so it is a sum.
unfoldable pub half_bits : ℕ → ℕ
unfolding normalize_from
half_bits h =
    let sign = h / 2 ^ 15 % 2 * 2 ^ 31 in
    let exp = h / 2 ^ 10 % 32 in
    let mant = h % 2 ^ 10 in
    if exp == 0
    then (if mant == 0
        then sign
        else let (e, m) = normalize_from 10 (127 - 15 + 1) mant in
          sign + e * 2 ^ 23 + m % 2 ^ 10 * 2 ^ 13)
    else if exp == 31
    then sign + 0x7f800000 + mant * 2 ^ 13
    else sign + (exp + 112) * 2 ^ 23 + mant * 2 ^ 13

-- What a finite pattern stands for without its sign: multiples of 2^-24 for binary16, and of 2^-149
-- for binary32.
abbrev magnitude16 : ℕ → ℕ
magnitude16 h =
    let exp = h / 2 ^ 10 % 2 ^ 5 in
    let mant = h % 2 ^ 10 in if exp == 0 then mant else (2 ^ 10 + mant) * 2 ^ (exp - 1)

abbrev magnitude32 : ℕ → ℕ
magnitude32 bits =
    let exp = bits / 2 ^ 23 % 2 ^ 8 in
    let mant = bits % 2 ^ 23 in if exp == 0 then mant else (2 ^ 23 + mant) * 2 ^ (exp - 1)

-- Whether a conversion is exact at `h`.
abbrev is_exact : ℕ → Bool
is_exact h =
    let bits = half_bits h in
    (bits / 2 ^ 31 == h / 2 ^ 15)
    && (if h / 2 ^ 10 % 2 ^ 5 == 31
        then (bits / 2 ^ 23 % 2 ^ 8 == 255)
          && ((bits % 2 ^ 23 == 0) && (h % 2 ^ 10 == 0)
              || ltb 0 (bits % 2 ^ 23) && ltb 0 (h % 2 ^ 10))
        else ltb (bits / 2 ^ 23 % 2 ^ 8) 255 && (magnitude32 bits == magnitude16 h * 2 ^ 125))

all_exact : passes 0 (2 ^ 16) is_exact ≡ true
unfolding passes half_bits
all_exact = refl

-- The same sign; a finite pattern gives a finite one of exactly the same magnitude; an infinity gives an
-- infinity, and a NaN a NaN.
pub record IsExact (h bits : ℕ) : Type 0 where
  pub sign : bits / 2 ^ 31 ≡ h / 2 ^ 15
  pub finite :
      h / 2 ^ 10 % 2 ^ 5 ≢ 31
      → (bits / 2 ^ 23 % 2 ^ 8 < 255) × (magnitude32 bits ≡ magnitude16 h * 2 ^ 125)
  pub special :
      h / 2 ^ 10 % 2 ^ 5 ≡ 31
      → (bits / 2 ^ 23 % 2 ^ 8 ≡ 255) × ((bits % 2 ^ 23 ≡ 0) ↔ (h % 2 ^ 10 ≡ 0))

-- Every binary16 pattern is converted exactly.
pub half_bits-IsExact : (h : ℕ) → h < 2 ^ 16 → IsExact h (half_bits h)
half_bits-IsExact h lt =
    let e : is_exact h ≡ true = passes-below (2 ^ 16) is_exact all_exact lt in
    record {
      sign = ground arith;
      finite = λ f. (
        ground arith,
        (==_iff _ _).0 (
            let same : (magnitude32 (half_bits h) == magnitude16 h * 2 ^ 125) ≡ true =
              ground arith in
            same),
      );
      special = λ f. (ground arith, (λ z. ground arith, λ z. ground arith));
    }
