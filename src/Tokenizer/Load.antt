-- ===== src/Tokenizer/Load.antt =====
-- `vg_tokenizer_load` of src/tokenizer.c over the metadata of a file, which are a function from keys to texts.
-- The scores, which nothing reads, and failing allocations are left out.
pub mod Sound
pub mod Flags
pub mod RoundTrip
use etha_jhol.Common.{
  ℕ, zero, suc, ◌+◌, ◌-◌, ◌*◌, ◌%◌, ◌^◌, ◌<◌, Bool, true, false, ◌&&◌, ◌||◌, not, Option, none,
  some, List, [], ◌∷◌, bit_and, bit_or, ltb, leb, ◌==◌, if◌then◌else◌, list_eq, length, get_or,
  drop, map,
}
use etha_jhol.Common.Result.{format, Result, ok, fail}
use etha_jhol.Common.Text.{ascii, strtol}
use etha_jhol.Gguf.Reader.{c_string}
use etha_jhol.Tokenizer.Array.{skip_bracket, read_tokens}
use etha_jhol.Tokenizer.Encode.{Tokenizer}
use etha_jhol.Tokenizer.Merges.{Merge, no_merge, read_merges, index_merges, find_merge}
use etha_jhol.Tokenizer.Vocab.{Index, index_vocab, find_token_n}

-- The value and the end of `strtol`; without digits it is 0, at the start.
unfoldable pub long_at : List ℕ → ℕ × List ℕ
unfolding strtol
long_at s = elim (strtol s) [ none ↦ (0, s) | some r ↦ r ]

-- `meta_bool`
unfoldable pub meta_bool : List ℕ → Bool → Bool
unfolding long_at
meta_bool [] dflt = dflt
meta_bool (c ∷ s) dflt =
    if list_eq (c ∷ s) (ascii "true") || list_eq (c ∷ s) (ascii "True")
    then true
    else if list_eq (c ∷ s) (ascii "false") || list_eq (c ∷ s) (ascii "False")
    then false
    else not ((long_at (c ∷ s)).0 == 0)

unfoldable pub skip_commas : List ℕ → List ℕ
skip_commas [] = []
skip_commas (c ∷ s) = let rest = skip_commas s in if (c == b',') || (c == b' ') then rest else c ∷ s

abbrev pub closes : List ℕ → Bool
closes [] = false
closes (c ∷ s) = c == b']'

-- The loop over the token types, from token `i` on: the control and the user-defined tokens of at least two bytes.
unfoldable pub added_from : ℕ → List (List ℕ) → List ℕ → List (List ℕ × ℕ)
unfolding long_at skip_commas c_string
added_from i [] q = []
added_from i (text ∷ texts) q =
    let at_number = skip_commas q in
    let ty = (long_at at_number).0 in
    let rest = added_from (i + 1) texts (long_at at_number).1 in
    if (length q == 0) || (closes q || closes at_number)
    then []
    else if ((ty == 3) || (ty == 4)) && leb 2 (length (c_string text))
    then (c_string text, i) ∷ rest
    else rest

-- Whether byte `k` of the text is a continuation byte; behind the end stands a zero byte.
abbrev pub continues : List ℕ → ℕ → Bool
continues s k = bit_and (get_or s k 0) 0xc0 == 0x80

-- The scan of a token's text for a code point of the byte fallback, with `fuel` rounds; a round takes at least
-- one byte.
unfoldable pub has_fallback : ℕ → List ℕ → Bool
has_fallback zero s = false
has_fallback (suc fuel) [] = false
has_fallback (suc fuel) (c ∷ s) =
    let two = has_fallback fuel (drop 1 s) in
    let three = has_fallback fuel (drop 2 s) in
    let four = has_fallback fuel (drop 3 s) in
    let one = has_fallback fuel s in
    let cp = bit_or (bit_and c 0x1f * 2 ^ 6) (bit_and (get_or s 0 0) 0x3f) in
    if (bit_and c 0xe0 == 0xc0) && continues s 0
    then (if leb 0x100 cp && leb cp 0x143 then true else two)
    else if (bit_and c 0xf0 == 0xe0) && (continues s 0 && continues s 1)
    then three
    else if (bit_and c 0xf8 == 0xf0) && (continues s 0 && (continues s 1 && continues s 2))
    then four
    else one

unfoldable pub any_fallback : List (List ℕ) → Bool
unfolding has_fallback c_string
any_fallback [] = false
any_fallback (text ∷ texts) =
    has_fallback (length (c_string text)) (c_string text) || any_fallback texts

-- The texts of the tokens, each a C string: a zero byte that an escape wrote ends it.
unfoldable pub read_vocab : List ℕ → List (List ℕ)
unfolding read_tokens c_string
read_vocab s = map c_string (read_tokens s)

-- `VG_Tokenizer`; the ids are their patterns of 32 bits.
pub record Loaded : Type 0 where
  pub vocab : List (List ℕ)
  pub vocab_ix : Index
  pub merges : List Merge
  pub merge_ix : Option Index
  pub bos_id : ℕ
  pub eos_id : ℕ
  pub add_bos : Bool
  pub gpt2_byte_map : Bool
  pub add_dummy_prefix : Bool
  pub remove_extra_ws : Bool
  pub added : List (List ℕ × ℕ)

-- What encoding reads of it.
unfoldable pub tokenizer_of : Loaded → Tokenizer
unfolding find_token_n find_merge
tokenizer_of t = record {
  find = find_token_n t.vocab_ix t.vocab;
  rank = λ a b. elim (find_merge t.merge_ix t.merges a b) [
    | none ↦ none
    | some best ↦ elim best [ none ↦ none | some mi ↦ some (get_or t.merges mi no_merge).rank ]
  ];
  gpt2_byte_map = t.gpt2_byte_map;
  add_dummy_prefix = t.add_dummy_prefix;
  remove_extra_ws = t.remove_extra_ws;
  added = t.added;
}

module _ (meta : List ℕ → Option (List ℕ)) where
  -- An id of the metadata, -1 where there is none.
  unfoldable pub id_of : List ℕ → ℕ
  unfolding long_at
  id_of key = elim (meta key) [ none ↦ 2 ^ 32 - 1 | some s ↦ (long_at s).0 % 2 ^ 32 ]

  -- A flag that is not 0, set where there is none.
  unfoldable pub flag_of : List ℕ → Bool
  unfolding long_at
  flag_of key = elim (meta key) [ none ↦ true | some s ↦ not ((long_at s).0 == 0) ]

  abbrev pub text_of : List ℕ → List ℕ
  text_of key = elim (meta key) [ none ↦ [] | some s ↦ s ]

  unfoldable pub bos_policy : Bool
  unfolding meta_bool id_of
  bos_policy =
      if leb (2 ^ 31) (id_of (ascii "tokenizer.ggml.bos_token_id"))
      then false
      else elim (meta (ascii "tokenizer.ggml.add_bos_token")) [
        | none ↦ true
        | some s ↦ meta_bool s true
      ]

  abbrev pub is_gpt2 : List ℕ → Bool
  is_gpt2 model = list_eq model (ascii "gpt2") || list_eq model (ascii "bpe")

  -- The rest of the loading, with the tokens and their index; `none` is a loop that does not end.
  unfoldable pub load_with : List (List ℕ) → Index → Option (Result Loaded)
  unfolding id_of flag_of bos_policy added_from any_fallback read_merges index_merges
  load_with vocab vocab_ix =
      let merges = read_merges (text_of (ascii "tokenizer.ggml.merges")) in
      elim (index_merges merges) [
        | none ↦ none
        | some merge_ix ↦ some (
            ok (record {
              vocab = vocab;
              vocab_ix = vocab_ix;
              merges = merges;
              merge_ix = merge_ix;
              bos_id = id_of (ascii "tokenizer.ggml.bos_token_id");
              eos_id = id_of (ascii "tokenizer.ggml.eos_token_id");
              add_bos = bos_policy;
              gpt2_byte_map =
                  is_gpt2 (text_of (ascii "tokenizer.ggml.model")) && any_fallback vocab;
              add_dummy_prefix = flag_of (ascii "tokenizer.ggml.add_dummy_prefix");
              remove_extra_ws = flag_of (ascii "tokenizer.ggml.remove_extra_whitespaces");
              added =
                  added_from 0 vocab (skip_bracket (text_of (ascii "tokenizer.ggml.token_type")));
            }))
      ]

  -- `vg_tokenizer_load`
  unfoldable pub load : Option (Result Loaded)
  unfolding load_with read_vocab index_vocab
  load = elim (meta (ascii "tokenizer.ggml.tokens")) [
    | none ↦ some (fail format)
    | some tokens ↦
        let vocab = read_vocab tokens in
        if length vocab == 0
        then some (fail format)
        else elim (index_vocab vocab) [ none ↦ none | some ix ↦ load_with vocab ix ]
  ]
