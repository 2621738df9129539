-- ===== src/Tests/Encode.antt =====
-- Encoding with a small vocabulary.
use etha_jhol.Common.{
  ℕ, ◌≡◌, refl, arith, true, none, some, List, [], ◌∷◌, ◌++◌, list_eq, if◌then◌else◌,
}
use etha_jhol.Common.Text.{ascii}
use etha_jhol.Gguf.Index.{linear_from}
use etha_jhol.Tokenizer.Bpe.{apply_merges}
use etha_jhol.Tokenizer.ByteMap.{encode_byte_fwd}
use etha_jhol.Tokenizer.Encode.{Tokenizer, words, encode_pieces, encode}
use etha_jhol.Tokenizer.Encode.Pieces.{Covers, encode_pieces-Covers}

abbrev vocab : List (List ℕ)
vocab = ascii "a" ∷ ascii "b" ∷ ascii "ab" ∷ []

abbrev a_tokenizer : Tokenizer
a_tokenizer = record {
  find = linear_from 0 vocab;
  rank = λ a b. if list_eq (a ++ b) (ascii "ab") then some 0 else none;
  gpt2_byte_map = true;
  add_dummy_prefix = true;
  remove_extra_ws = true;
  added = (ascii "<e>", 7) ∷ [];
}

words_run : words 6 (ascii "a 1 b") ≡ ascii "a" ∷ ascii " 1" ∷ ascii " b" ∷ []
unfolding words
words_run = refl

encode_pieces-Covers_example :
    (ids : List ℕ) × (encode_pieces a_tokenizer 3 (ascii "aab") ≡ some ids)
    × Covers a_tokenizer ids (ascii "aab")
encode_pieces-Covers_example =
    encode_pieces-Covers a_tokenizer 3 (ascii "aab") (omega arith)
      (omega arith, (omega arith, (omega arith, tt)))

encode_run : encode a_tokenizer (ascii "ab<e>b") ≡ some (2 ∷ 7 ∷ 1 ∷ [])
unfolding encode linear_from apply_merges encode_byte_fwd
encode_run = refl
