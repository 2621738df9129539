-- ===== src/Tests/Decode.antt =====
-- Decoding with a small vocabulary of SentencePiece's kind.
use etha_jhol.Common.{ℕ, ◌≡◌, refl, true, false, none, List, [], ◌∷◌, ◌++◌}
use etha_jhol.Common.Text.{ascii}
use etha_jhol.Tokenizer.Decode.{decode_sequence, space_mark}
use etha_jhol.Tokenizer.Decode.RoundTrip.{decode_sequence-normalize}
use etha_jhol.Tokenizer.Encode.{Tokenizer, normalize}
use etha_jhol.Tokenizer.Utf8.{utf8_put}

abbrev a_tokenizer : Tokenizer
a_tokenizer = record {
  find = λ text. none;
  rank = λ a b. none;
  gpt2_byte_map = false;
  add_dummy_prefix = true;
  remove_extra_ws = false;
  added = [];
}

abbrev vocab : List (List ℕ)
vocab = (space_mark ++ ascii "a") ∷ (space_mark ++ ascii "b") ∷ ascii "c" ∷ []

-- The space of the first token is left out, that of a later one is kept.
sequence : decode_sequence false vocab (0 ∷ 2 ∷ 1 ∷ 9 ∷ []) ≡ ascii "ac b"
unfolding decode_sequence
sequence = refl

decode_sequence-normalize_example : decode_sequence false vocab (0 ∷ 2 ∷ 1 ∷ []) ≡ ascii "ac b"
unfolding normalize utf8_put
decode_sequence-normalize_example =
    decode_sequence-normalize a_tokenizer refl vocab (0 ∷ 2 ∷ 1 ∷ []) (ascii "ac b") refl
      (refl, (refl, (refl, (refl, tt))))
      (
        (b' ', ascii "a", (refl, (refl, tt)), refl),
        ((b'c', [], (refl, tt), refl), ((b' ', ascii "b", (refl, (refl, tt)), refl), tt)),
      )
      refl
