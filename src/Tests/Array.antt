-- ===== src/Tests/Array.antt =====
-- An array of two strings, a quote and a letter, through the text of src/gguf.c.
use etha_jhol.Common.{ℕ, ◌+◌, ◌≡◌, refl, true, false, List, [], ◌∷◌, length}
use etha_jhol.Gguf.Reader.{Cursor, got, null, Reader}
use etha_jhol.Gguf.Value.{Buffer, array_items, append_item, close_array}
use etha_jhol.Tokenizer.Array.{read_tokens}
use etha_jhol.Tokenizer.Array.Items.{Reads, read_tokens-array_items}

-- A reader of strings of one byte.
abbrev read_byte : Reader (List ℕ)
read_byte c = elim c.rest [
  | [] ↦ null
  | b ∷ bs ↦ got (b ∷ [], record { rest = bs; pos = c.pos + 1 })
]

abbrev start : Cursor
start = record { rest = b'"' ∷ b'a' ∷ []; pos = 0 }

abbrev end : Cursor
end = record { rest = []; pos = 2 }

-- `["\"","a"`
abbrev written : Buffer
written = record {
  text = b'[' ∷ b'"' ∷ b'\\' ∷ b'"' ∷ b'"' ∷ b',' ∷ b'"' ∷ b'a' ∷ b'"' ∷ [];
  cap = 64;
}

abbrev closed : List ℕ
closed = b'[' ∷ b'"' ∷ b'\\' ∷ b'"' ∷ b'"' ∷ b',' ∷ b'"' ∷ b'a' ∷ b'"' ∷ b']' ∷ []

written_run :
    array_items read_byte false true 2 (record { text = b'[' ∷ []; cap = 64 }) start
    ≡ got (written, end)
unfolding array_items append_item
written_run = refl

closed_run : close_array written ≡ got closed
unfolding close_array
closed_run = refl

read_tokens_run : read_tokens closed ≡ (b'"' ∷ []) ∷ (b'a' ∷ []) ∷ []
unfolding read_tokens
read_tokens_run = refl

read_tokens-array_items_example :
    Reads read_byte start (read_tokens closed) end × (length (read_tokens closed) ≡ 2)
read_tokens-array_items_example =
    read_tokens-array_items read_byte 2 written closed start end written_run closed_run
