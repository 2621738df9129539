-- ===== src/Gguf/Value.antt =====
-- Metadata values of src/gguf.c: `read_scalar_value` and `read_array_text`, which render a value as
-- text. How a `float` and a `double` print (`%.17g`) is a parameter over their bit patterns.
pub mod Growth
use etha_jhol.Common.{
  ℕ, zero, suc, ◌+◌, ◌-◌, ◌*◌, ◌/◌, ◌%◌, ◌^◌, Bool, true, false, ◌||◌, List, [], ◌∷◌, ◌++◌, ltb,
  leb, ◌==◌, if◌then◌else◌, length, take, drop,
}
use etha_jhol.Gguf.Reader.{
  Cursor, Outcome, got, null, overflow, Reader, ◌>>=◌, ◌>>◌, pure, failed, check, rd, little_endian,
  u32, u64, read_string, fmt_u64, fmt_signed,
}

pub record FloatText : Type 0 where
  pub fmt_f32 : ℕ → List ℕ
  pub fmt_f64 : ℕ → List ℕ

-- The growing text of an array: what is written, and the bytes allocated.
pub record Buffer : Type 0 where
  pub text : List ℕ
  pub cap : ℕ

-- `while (need >= cap) cap *= 2`; a doubling adds at least one, so `need` rounds are enough.
unfoldable pub grow_cap : ℕ → ℕ → ℕ → ℕ
grow_cap zero need cap = cap
grow_cap (suc fuel) need cap =
    let more = grow_cap fuel need (cap * 2) in if leb cap need then more else cap

-- The bytes of an item between quotes.
unfoldable pub escape : List ℕ → List ℕ
escape [] = []
escape (c ∷ s) = if (c == b'"') || (c == b'\\') then b'\\' ∷ c ∷ escape s else c ∷ escape s

unfoldable pub item_text : Bool → List ℕ → List ℕ
unfolding escape
item_text quoted item = if quoted then b'"' ∷ (escape item ++ b'"' ∷ []) else item

-- `need` of one round of the loop.
abbrev pub need_of : Bool → Bool → List ℕ → List ℕ → ℕ
need_of later quoted text item =
    length text + (if later then 1 else 0) + (if quoted then 2 else 0) + length item + 1

-- One round: grows the buffer for `need` bytes, and writes the separator and the item.
unfoldable pub append_item : Bool → Bool → List ℕ → Buffer → Outcome Buffer
unfolding grow_cap item_text
append_item later quoted item b =
    let need = need_of later quoted b.text item in
    let cap = grow_cap need need b.cap in
    let text = b.text ++ ((if later then b',' ∷ [] else []) ++ item_text quoted item) in
    if leb (length text) cap then got (record { text = text; cap = cap }) else overflow

-- `out[len] = ']'; out[len + 1] = 0;`
unfoldable pub close_array : Buffer → Outcome (List ℕ)
close_array b = if leb (length b.text + 2) b.cap then got (b.text ++ b']' ∷ []) else overflow

-- Runs a step that reads nothing.
abbrev pub lift {ℓ} : {A : Type ℓ} → Outcome A → Reader A
lift (got a) c = got (a, c)
lift null c = null
lift overflow c = overflow

-- The rounds left of the loop, with the reader of one item.
unfoldable pub array_items : Reader (List ℕ) → Bool → Bool → ℕ → Buffer → Reader Buffer
array_items read later quoted zero b = pure b
array_items read later quoted (suc n) b = do
  item ← read
  b' ← lift (append_item later quoted item b)
  array_items read true quoted n b'

-- `b8 ? "true" : "false"`
unfoldable pub bool_text : ℕ → List ℕ
bool_text b =
    if b == 0 then b'f' ∷ b'a' ∷ b'l' ∷ b's' ∷ b'e' ∷ [] else b't' ∷ b'r' ∷ b'u' ∷ b'e' ∷ []

module _ (floats : FloatText) where
  -- Arrays of arrays nest at most `fuel` deep; each level has a header of twelve bytes.
  unfoldable pub read_scalar_value : ℕ → ℕ → Reader (List ℕ)
  unfolding rd little_endian u32 u64 read_string fmt_u64 fmt_signed append_item close_array
      array_items bool_text
  read_scalar_value zero type = failed
  read_scalar_value (suc fuel) type =
      let array : Reader (List ℕ) = (do
        inner ← u32
        n ← u64
        check (leb n (2 ^ 20))
        b ←
            array_items (read_scalar_value fuel inner) false (inner == 8) n
              (record { text = b'[' ∷ []; cap = 64 })
        lift (close_array b)) in
      if type == 0
      then (do bs ← rd 1; pure (fmt_u64 (little_endian bs)))
      else if type == 1
      then (do bs ← rd 1; pure (fmt_signed 8 (little_endian bs)))
      else if type == 2
      then (do bs ← rd 2; pure (fmt_u64 (little_endian bs)))
      else if type == 3
      then (do bs ← rd 2; pure (fmt_signed 16 (little_endian bs)))
      else if type == 4
      then (do bs ← rd 4; pure (fmt_u64 (little_endian bs)))
      else if type == 5
      then (do bs ← rd 4; pure (fmt_signed 32 (little_endian bs)))
      else if type == 6
      then (do bs ← rd 4; pure (floats.fmt_f32 (little_endian bs)))
      else if type == 7
      then (do bs ← rd 1; pure (bool_text (little_endian bs)))
      else if type == 8
      then read_string
      else if type == 9
      then array
      else if type == 10
      then (do bs ← rd 8; pure (fmt_u64 (little_endian bs)))
      else if type == 11
      then (do bs ← rd 8; pure (fmt_signed 64 (little_endian bs)))
      else if type == 12
      then (do bs ← rd 8; pure (floats.fmt_f64 (little_endian bs)))
      else failed
