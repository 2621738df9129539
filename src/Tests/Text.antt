-- ===== src/Tests/Text.antt =====
-- The byte map and the table of types at concrete inputs.
use etha_jhol.Common.{ℕ, ◌≡◌, refl, arith, List, [], ◌∷◌, map, concat}
use etha_jhol.Tokenizer.ByteMap.{encode_byte_fwd, decode_gpt2}
use etha_jhol.Tokenizer.ByteMap.RoundTrip.{decode_gpt2-encode_byte_fwd}

abbrev some_bytes : List ℕ
some_bytes = 0 ∷ 32 ∷ 65 ∷ 173 ∷ 255 ∷ []

decode_gpt2-encode_byte_fwd_example :
    decode_gpt2 (concat (map encode_byte_fwd some_bytes)) ≡ some_bytes
decode_gpt2-encode_byte_fwd_example = decode_gpt2-encode_byte_fwd some_bytes (omega arith)

-- A space becomes U+0120.
encode_space : encode_byte_fwd 32 ≡ 0xc4 ∷ 0xa0 ∷ []
unfolding encode_byte_fwd
encode_space = refl
