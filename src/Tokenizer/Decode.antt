-- ===== src/Tokenizer/Decode.antt =====
-- Decoding of src/tokenizer.c: `vg_tokenizer_decode` and `vg_tokenizer_decode_sequence`. Buffers are as
-- large as the lengths that the counting passes give.
pub mod Mapped
pub mod RoundTrip
use etha_jhol.Common.{
  ℕ, zero, suc, Bool, true, false, ◌&&◌, not, none, some, List, [], ◌∷◌, map, concat, ◌==◌,
  if◌then◌else◌, length, drop, get_elem?,
}
use etha_jhol.Tokenizer.ByteMap.{decode_gpt2}
use etha_jhol.Tokenizer.Encode.{starts_with}

-- The bytes of U+2581.
abbrev pub space_mark : List ℕ
space_mark = 0xe2 ∷ 0x96 ∷ 0x81 ∷ []

-- The loop of SentencePiece over a token's text, with `fuel` rounds; a round takes at least one byte.
unfoldable pub spaces_from : ℕ → List ℕ → List ℕ
spaces_from zero s = []
spaces_from (suc fuel) [] = []
spaces_from (suc fuel) (c ∷ s) =
    let marked = b' ' ∷ spaces_from fuel (drop 3 (c ∷ s)) in
    let other = c ∷ spaces_from fuel s in if starts_with (c ∷ s) space_mark then marked else other

unfoldable pub decode_spaces : List ℕ → List ℕ
unfolding spaces_from
decode_spaces s = spaces_from (length s) s

-- `vg_tokenizer_decode`: an id that is not in the vocabulary gives nothing.
unfoldable pub decode_token : Bool → List (List ℕ) → ℕ → List ℕ
unfolding decode_spaces decode_gpt2
decode_token gpt2_byte_map vocab id = elim (get_elem? vocab id) [
  | none ↦ []
  | some text ↦ if gpt2_byte_map then decode_gpt2 text else decode_spaces text
]

-- The first token's text begins with U+2581.
abbrev pub begins_marked : List (List ℕ) → List ℕ → Bool
begins_marked vocab [] = false
begins_marked vocab (id ∷ ids) = elim (get_elem? vocab id) [
  | none ↦ false
  | some text ↦ starts_with text space_mark
]

-- The space of the dummy prefix is left out.
abbrev pub without_prefix_space : Bool → List ℕ → List ℕ
without_prefix_space marked [] = []
without_prefix_space marked (c ∷ s) = if marked && (c == b' ') then s else c ∷ s

-- `vg_tokenizer_decode_sequence`
unfoldable pub decode_sequence : Bool → List (List ℕ) → List ℕ → List ℕ
unfolding decode_token
decode_sequence gpt2_byte_map vocab ids =
    without_prefix_space (not gpt2_byte_map && begins_marked vocab ids)
      (concat (map (decode_token gpt2_byte_map vocab) ids))
