-- ===== src/Tokenizer/Utf8.antt =====
-- UTF-8 output and the hexadecimal escapes of src/tokenizer.c. A `char` is its byte, below 256; the
-- casts to `char` are `% 256`.
use etha_jhol.Common.{ℕ, ◌/◌, ◌%◌, ◌^◌, List, [], ◌∷◌, bit_and, bit_or, ltb, if◌then◌else◌}

-- A continuation byte: `(char)(0x80 | (x & 0x3F))`.
abbrev pub continuation : ℕ → ℕ
continuation x = bit_or 0x80 (bit_and x 0x3f) % 256

-- The bytes that `utf8_put` writes; their number is what it returns.
unfoldable pub utf8_put : ℕ → List ℕ
utf8_put cp =
    if ltb cp 0x80
    then cp % 256 ∷ []
    else if ltb cp 0x800
    then bit_or 0xc0 (cp / 2 ^ 6) % 256 ∷ continuation cp ∷ []
    else if ltb cp 0x10000
    then bit_or 0xe0 (cp / 2 ^ 12) % 256 ∷ continuation (cp / 2 ^ 6) ∷ continuation cp ∷ []
    else bit_or 0xf0 (cp / 2 ^ 18) % 256
      ∷ continuation (cp / 2 ^ 12)
      ∷ continuation (cp / 2 ^ 6)
      ∷ continuation cp
      ∷ []
