-- ===== src/Gguf/Reader.antt =====
-- Reading the index of src/gguf.c: `rd`, `u32`, `u64`, `read_string` and the number texts. A file is
-- the bytes behind the cursor, with the position that `ftello` gives. Allocations succeed.
use etha_jhol.Common.{
  ℕ, zero, suc, ◌+◌, ◌-◌, ◌*◌, ◌/◌, ◌%◌, ◌^◌, Bool, true, false, List, [], ◌∷◌, ltb, leb, ◌==◌,
  if◌then◌else◌, length, take, drop,
}

pub record Cursor : Type 0 where
  pub rest : List ℕ
  pub pos : ℕ

-- `null` is a failed read, and `overflow` a write behind the end of a buffer.
pub data Outcome {ℓ} (A : Type ℓ) : Type ℓ where
  got : A → Outcome A
  null : Outcome A
  overflow : Outcome A

abbrev pub Reader {ℓ} : Type ℓ → Type ℓ
Reader A = Cursor → Outcome (A × Cursor)

infixl 5 ◌>>=◌ ◌>>◌
abbrev pub ◌>>=◌ {ℓ κ} : {A : Type ℓ} {B : Type κ} → Reader A → (A → Reader B) → Reader B
◌>>=◌ m f c = elim (m c) [ got (a, c') ↦ f a c' | null ↦ null | overflow ↦ overflow ]

abbrev pub ◌>>◌ {ℓ} : {B : Type ℓ} → Reader (Unit {0}) → Reader B → Reader B
m >> k = m >>= λ _. k

abbrev pub pure {ℓ} : {A : Type ℓ} → A → Reader A
pure a c = got (a, c)

abbrev pub failed {ℓ} : {A : Type ℓ} → Reader A
failed c = null

abbrev pub check : Bool → Reader (Unit {0})
check true c = got (tt, c)
check false c = null

-- `rd(p, n, f)`
unfoldable pub rd : ℕ → Reader (List ℕ)
rd n c =
    if leb n (length c.rest)
    then got (take n c.rest, record { rest = drop n c.rest; pos = c.pos + n })
    else null

-- The number that little-endian bytes stand for.
unfoldable pub little_endian : List ℕ → ℕ
little_endian [] = 0
little_endian (b ∷ bs) = b + 256 * little_endian bs

unfoldable pub u32 : Reader ℕ
unfolding rd little_endian
u32 = do bs ← rd 4; pure (little_endian bs)

unfoldable pub u64 : Reader ℕ
unfolding rd little_endian
u64 = do bs ← rd 8; pure (little_endian bs)

-- A `char` array as the string functions read it: up to the first zero byte.
unfoldable pub c_string : List ℕ → List ℕ
c_string [] = []
c_string (b ∷ bs) = if b == 0 then [] else b ∷ c_string bs

unfoldable pub read_string : Reader (List ℕ)
unfolding u64 rd c_string
read_string = do n ← u64; check (leb n (2 ^ 20)); bs ← rd n; pure (c_string bs)

-- The digits of `%llu`; a value below 2^64 has at most twenty.
unfoldable pub digits_from : ℕ → ℕ → List ℕ → List ℕ
digits_from zero n acc = acc
digits_from (suc fuel) n acc =
    let acc' = (b'0' + n % 10) ∷ acc in
    let rest = digits_from fuel (n / 10) acc' in if n / 10 == 0 then acc' else rest

unfoldable pub fmt_u64 : ℕ → List ℕ
unfolding digits_from
fmt_u64 v = digits_from 20 v []

-- `%lld` of the two's complement pattern of `w` bits.
unfoldable pub fmt_signed : ℕ → ℕ → List ℕ
unfolding fmt_u64
fmt_signed w v = if ltb v (2 ^ (w - 1)) then fmt_u64 v else b'-' ∷ fmt_u64 (2 ^ w - v)
