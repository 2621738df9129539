-- ===== src/Tokenizer/ByteMap.antt =====
-- The GPT-2 byte map of src/tokenizer.c: `gpt2_byte_to_cp`, `gpt2_fallback_index`,
-- `encode_byte_fwd`, and the reverse map in the loop of `vg_tokenizer_decode`.
pub mod RoundTrip
use etha_jhol.Common.{
  ℕ, zero, suc, ◌+◌, ◌-◌, ◌*◌, ◌/◌, ◌%◌, ◌^◌, Bool, ◌&&◌, Option, none, some, List, [], ◌∷◌, ◌++◌,
  bit_and, bit_or, ltb, leb, ◌==◌, if◌then◌else◌, get_or, length, take, drop,
}

-- The 68 bytes that are moved to U+0100 .. U+0143, in ascending order.
abbrev pub gpt2_byte_to_cp : List ℕ
gpt2_byte_to_cp =
    0x00 ∷ 0x01 ∷ 0x02 ∷ 0x03 ∷ 0x04 ∷ 0x05 ∷ 0x06 ∷ 0x07 ∷ 0x08 ∷ 0x09 ∷ 0x0a ∷ 0x0b ∷ 0x0c ∷ 0x0d
    ∷ 0x0e ∷ 0x0f ∷ 0x10 ∷ 0x11 ∷ 0x12 ∷ 0x13 ∷ 0x14 ∷ 0x15 ∷ 0x16 ∷ 0x17 ∷ 0x18 ∷ 0x19 ∷ 0x1a
    ∷ 0x1b ∷ 0x1c ∷ 0x1d ∷ 0x1e ∷ 0x1f ∷ 0x20 ∷ 0x7f ∷ 0x80 ∷ 0x81 ∷ 0x82 ∷ 0x83 ∷ 0x84 ∷ 0x85
    ∷ 0x86 ∷ 0x87 ∷ 0x88 ∷ 0x89 ∷ 0x8a ∷ 0x8b ∷ 0x8c ∷ 0x8d ∷ 0x8e ∷ 0x8f ∷ 0x90 ∷ 0x91 ∷ 0x92
    ∷ 0x93 ∷ 0x94 ∷ 0x95 ∷ 0x96 ∷ 0x97 ∷ 0x98 ∷ 0x99 ∷ 0x9a ∷ 0x9b ∷ 0x9c ∷ 0x9d ∷ 0x9e ∷ 0x9f
    ∷ 0xa0 ∷ 0xad ∷ []

-- `none` stands for the result -1.
unfoldable pub gpt2_fallback_index : ℕ → Option ℕ
gpt2_fallback_index b =
    if leb b 0x20
    then some b
    else if leb 0x7f b && leb b 0xa0
    then some (33 + b - 0x7f)
    else if b == 0xad
    then some 67
    else none

code_point : ℕ → Option ℕ → ℕ
code_point b none = b
code_point b (some idx) = 0x100 + idx

-- The one or two bytes that are written.
unfoldable pub encode_byte_fwd : ℕ → List ℕ
unfolding gpt2_fallback_index code_point
encode_byte_fwd b =
    let cp = code_point b (gpt2_fallback_index b) in
    if ltb cp 0x80
    then cp % 256 ∷ []
    else bit_or 0xc0 (cp / 2 ^ 6) % 256 ∷ bit_or 0x80 (bit_and cp 0x3f) % 256 ∷ []

-- `(s & 0xC0) == 0x80`
abbrev pub is_continuation : ℕ → Bool
is_continuation s = bit_and s 0xc0 == 0x80

-- One round of the loop reads the first byte and up to three behind it: the code point and the
-- number of bytes that it takes.
pub record Read : Type 0 where
  pub cp : ℕ
  pub seq : ℕ

unfoldable pub read_code_point : ℕ → ℕ → ℕ → ℕ → Read
read_code_point c0 s1 s2 s3 =
    if ltb c0 0x80
    then record { cp = c0; seq = 1 }
    else if (bit_and c0 0xe0 == 0xc0) && is_continuation s1
    then record { cp = bit_or (bit_and c0 0x1f * 2 ^ 6) (bit_and s1 0x3f); seq = 2 }
    else if (bit_and c0 0xf0 == 0xe0) && is_continuation s1 && is_continuation s2
    then record {
      cp = bit_or (bit_or (bit_and c0 0x0f * 2 ^ 12) (bit_and s1 0x3f * 2 ^ 6)) (bit_and s2 0x3f);
      seq = 3;
    }
    else if (bit_and c0 0xf8 == 0xf0)
        && is_continuation s1
        && is_continuation s2
        && is_continuation s3
    then record {
      cp =
          bit_or
            (bit_or (bit_or (bit_and c0 0x07 * 2 ^ 18) (bit_and s1 0x3f * 2 ^ 12))
              (bit_and s2 0x3f * 2 ^ 6))
            (bit_and s3 0x3f);
      seq = 4;
    }
    else record { cp = c0; seq = 1 }

-- What one round emits; `s` is the text at the cursor.
unfoldable pub emit_code_point : Read → List ℕ → List ℕ
emit_code_point r s =
    if leb 0x100 r.cp && leb r.cp 0x143
    then get_or gpt2_byte_to_cp (r.cp - 0x100) 0 ∷ []
    else if leb 0xa1 r.cp && leb r.cp 0xff
    then r.cp ∷ []
    else take r.seq s

-- The whole loop over a text with no zero byte. A round takes at least one byte, so the length of
-- the text is fuel enough; a read behind the text gives the terminating zero.
unfoldable pub decode_loop : ℕ → List ℕ → List ℕ
unfolding read_code_point emit_code_point
decode_loop zero s = []
decode_loop (suc fuel) [] = []
decode_loop (suc fuel) (c0 ∷ s) =
    let r = read_code_point c0 (get_or s 0 0) (get_or s 1 0) (get_or s 2 0) in
    emit_code_point r (c0 ∷ s) ++ decode_loop fuel (drop r.seq (c0 ∷ s))

unfoldable pub decode_gpt2 : List ℕ → List ℕ
unfolding decode_loop
decode_gpt2 s = decode_loop (length s) s
