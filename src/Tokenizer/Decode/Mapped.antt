-- ===== src/Tokenizer/Decode/Mapped.antt =====
-- Decoding of a sequence of tokens under the GPT-2 byte map: each token is decoded alone.
use etha_jhol.Common.{
  ℕ, zero, suc, ◌<◌, ◌≡◌, refl, sym, ap, ap₂, ◌∙◌, subst, true, false, List, [], ◌∷◌, ◌++◌, map,
  concat, get_or, concat-append, map-append, All, All-append,
}
use etha_jhol.Tokenizer.ByteMap.{encode_byte_fwd, decode_gpt2}
use etha_jhol.Tokenizer.ByteMap.RoundTrip.{decode_gpt2-encode_byte_fwd}
use etha_jhol.Tokenizer.Decode.{decode_token, decode_sequence, without_prefix_space}
use etha_jhol.Tokenizer.Encode.RoundTrip.{IsMapped}

decode_token-text :
    (vocab : List (List ℕ)) (id : ℕ) → decode_token true vocab id ≡ decode_gpt2 (get_or vocab id [])
unfolding decode_token decode_gpt2
decode_token-text [] id = refl
decode_token-text (x ∷ vocab) zero = refl
decode_token-text (x ∷ vocab) (suc id) = decode_token-text vocab id

without_prefix_space-unmarked : (s : List ℕ) → without_prefix_space false s ≡ s
without_prefix_space-unmarked [] = refl
without_prefix_space-unmarked (c ∷ s) = refl

-- Tokens of whole bytes are the map of the bytes that they are decoded to.
decode_token-bytes :
    (vocab : List (List ℕ)) (ids : List ℕ)
    → All (λ id. IsMapped (get_or vocab id [])) ids
    → let bytes = concat (map (decode_token true vocab) ids) in
      All (λ c. c < 256) bytes
      × (concat (map (λ id. get_or vocab id []) ids) ≡ concat (map encode_byte_fwd bytes))
decode_token-bytes vocab [] all = (tt, refl)
decode_token-bytes vocab (id ∷ ids) ((s, small, mapped), all) =
    let (rest_small, rest) = decode_token-bytes vocab ids all in
    let more = concat (map (decode_token true vocab) ids) in
    let decoded : decode_token true vocab id ≡ s =
      decode_token-text vocab id ∙ ap decode_gpt2 mapped ∙ decode_gpt2-encode_byte_fwd s small in
    (
      subst (λ d. All (λ c. c < 256) (d ++ more)) (sym decoded)
          (All-append (λ c. c < 256) s more small rest_small),
      ap₂ ◌++◌ mapped rest
          ∙ sym (concat-append (map encode_byte_fwd s) (map encode_byte_fwd more))
          ∙ ap concat (sym (map-append encode_byte_fwd s more))
          ∙ ap (λ d. concat (map encode_byte_fwd (d ++ more))) (sym decoded),
    )

pub decode_sequence-text :
    (vocab : List (List ℕ)) (ids : List ℕ)
    → All (λ id. IsMapped (get_or vocab id [])) ids
    → decode_sequence true vocab ids ≡ decode_gpt2 (concat (map (λ id. get_or vocab id []) ids))
unfolding decode_sequence
decode_sequence-text vocab ids all =
    let (small, whole) = decode_token-bytes vocab ids all in
    let bytes = concat (map (decode_token true vocab) ids) in
    without_prefix_space-unmarked bytes
    ∙ sym (ap decode_gpt2 whole ∙ decode_gpt2-encode_byte_fwd bytes small)
