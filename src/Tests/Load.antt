-- ===== src/Tests/Load.antt =====
-- Loading a tokenizer of two tokens with one merge rule.
use etha_jhol.Common.{
  true, ℕ, ◌≡◌, ◌⊎◌, ◌<◌, refl, Bool, false, not, Option, none, some, List, [], ◌∷◌, ◌==◌,
  if◌then◌else◌, length, list_eq, ◌++◌, ◌≤◌, All, arith,
}
use etha_jhol.Common.Result.{Result, format, ok, fail}
use etha_jhol.Common.Text.{ascii}
use etha_jhol.Gguf.Value.{bool_text}
use etha_jhol.Probe.Walk.{first_empty}
use etha_jhol.Tokenizer.Array.{read_tokens}
use etha_jhol.Tokenizer.Load.{read_vocab, Loaded, tokenizer_of, text_of, meta_bool, flag_of, load}
use etha_jhol.Gguf.Index.{linear_from}
use etha_jhol.Tokenizer.ByteMap.{encode_byte_fwd}
use etha_jhol.Tokenizer.Decode.{decode_sequence}
use etha_jhol.Tokenizer.Encode.{words, encode}
use etha_jhol.Tokenizer.Load.RoundTrip.{HasText, load-encode-decode}
use etha_jhol.Tokenizer.Load.Flags.{flag_of-bool_text}
use etha_jhol.Tokenizer.Load.Sound.{IsSound, load-IsSound}
use etha_jhol.Tokenizer.Merges.{read_merges}
use etha_jhol.Tokenizer.Utf8.{utf8_put}

-- `["a","b"]`
abbrev token_text : List ℕ
token_text = b'[' ∷ b'"' ∷ b'a' ∷ b'"' ∷ b',' ∷ b'"' ∷ b'b' ∷ b'"' ∷ b']' ∷ []

-- `["a b"]`
abbrev merge_text : List ℕ
merge_text = b'[' ∷ b'"' ∷ b'a' ∷ b' ' ∷ b'b' ∷ b'"' ∷ b']' ∷ []

abbrev a_meta : List ℕ → Option (List ℕ)
a_meta key =
    if list_eq key (ascii "tokenizer.ggml.tokens")
    then some token_text
    else if list_eq key (ascii "tokenizer.ggml.merges")
    then some merge_text
    else if list_eq key (ascii "tokenizer.ggml.add_dummy_prefix")
    then some (bool_text 1)
    else none

tokens_run : read_tokens token_text ≡ ascii "a" ∷ ascii "b" ∷ []
unfolding read_tokens
tokens_run = refl

merges_run : read_merges merge_text ≡ record { a = b'a' ∷ []; b = b'b' ∷ []; rank = 0 } ∷ []
unfolding read_merges
merges_run = refl

load-IsSound_example :
    ((length (read_vocab (text_of a_meta (ascii "tokenizer.ggml.tokens"))) ≡ 0)
      × (load a_meta ≡ some (fail format)))
    ⊎ ((t : Loaded) × (load a_meta ≡ some (ok t))
        × (t.vocab ≡ read_vocab (text_of a_meta (ascii "tokenizer.ggml.tokens")))
        × (0 < length t.vocab)
        × IsSound t)
load-IsSound_example = load-IsSound a_meta

flag_of-bool_text_example :
    (flag_of a_meta (ascii "tokenizer.ggml.add_dummy_prefix") ≡ false)
    × ((dflt : Bool) → meta_bool (bool_text 1) dflt ≡ not (1 == 0))
flag_of-bool_text_example =
    flag_of-bool_text a_meta (ascii "tokenizer.ggml.add_dummy_prefix") 1 refl

-- `["a\u0000b","a"]`: the first text ends at the zero byte, and is found in front of the second.
abbrev cut_text : List ℕ
cut_text =
    b'[' ∷ b'"' ∷ b'a' ∷ b'\\' ∷ b'u' ∷ b'0' ∷ b'0' ∷ b'0' ∷ b'0' ∷ b'b' ∷ b'"' ∷ b',' ∷ b'"' ∷ b'a'
    ∷ b'"' ∷ b']' ∷ []

cut_run : read_vocab cut_text ≡ ascii "a" ∷ ascii "a" ∷ []
unfolding read_vocab utf8_put
cut_run = refl

-- A vocabulary of byte pairs, `["a","b","ab",".."]`, whose last token is the space of the byte map.
abbrev pair_text : List ℕ
pair_text =
    b'[' ∷ b'"' ∷ b'a' ∷ b'"' ∷ b',' ∷ b'"' ∷ b'b' ∷ b'"' ∷ b',' ∷ b'"' ∷ b'a' ∷ b'b' ∷ b'"' ∷ b','
    ∷ b'"' ∷ 0xc4 ∷ 0xa0 ∷ b'"' ∷ b']' ∷ []

abbrev pair_meta : List ℕ → Option (List ℕ)
pair_meta key =
    if list_eq key (ascii "tokenizer.ggml.tokens")
    then some pair_text
    else if list_eq key (ascii "tokenizer.ggml.merges")
    then some merge_text
    else if list_eq key (ascii "tokenizer.ggml.model")
    then some (ascii "gpt2")
    else none

abbrev no_tokenizer : Loaded
no_tokenizer = record {
  vocab = [];
  vocab_ix = record { slot = []; cap = 0 };
  merges = [];
  merge_ix = none;
  bos_id = 0;
  eos_id = 0;
  add_bos = false;
  gpt2_byte_map = false;
  add_dummy_prefix = false;
  remove_extra_ws = false;
  added = [];
}

abbrev loaded_of : Option (Result Loaded) → Loaded
loaded_of none = no_tokenizer
loaded_of (some (fail st)) = no_tokenizer
loaded_of (some (ok t)) = t

abbrev paired : Loaded
paired = loaded_of (load pair_meta)

paired-load : load pair_meta ≡ some (ok paired)
unfolding load first_empty
paired-load = refl

paired-flags : (paired.gpt2_byte_map ≡ true) × (paired.added ≡ [])
unfolding load first_empty
paired-flags = (refl, refl)

paired-merges : All (λ m. HasText paired.vocab (m.a ++ m.b)) paired.merges
unfolding load first_empty linear_from
paired-merges = ((2, refl), tt)

paired-bytes :
    All (λ c. HasText paired.vocab (encode_byte_fwd c)) (ascii "ab")
    × All (λ word. length word ≤ 256) (words 2 (ascii "ab"))
unfolding load first_empty linear_from encode_byte_fwd words
paired-bytes = (((0, refl), ((1, refl), tt)), (omega arith, tt))

load-encode-decode_example :
    (ids : List ℕ) × (encode (tokenizer_of paired) (ascii "ab") ≡ some ids)
    × (decode_sequence paired.gpt2_byte_map paired.vocab ids ≡ ascii "ab")
load-encode-decode_example =
    load-encode-decode pair_meta paired paired-load paired-flags.0 paired-flags.1 paired-merges
      (ascii "ab") (omega arith, (omega arith, tt)) paired-bytes.0 paired-bytes.1
