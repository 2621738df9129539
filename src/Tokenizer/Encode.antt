-- ===== src/Tokenizer/Encode.antt =====
-- Encoding of src/tokenizer.c: the classes of bytes, the words of the GPT-2 split, the longest match of
-- SentencePiece, and the added tokens. Each run gives the ids in order; the buffer of the caller gets
-- the first `max_ids` of them, and their number is the result.
pub mod Split
pub mod Pieces
pub mod RoundTrip
pub mod Added
use etha_jhol.Common.{
  ℕ, zero, suc, ◌+◌, ◌-◌, min, Bool, true, false, ◌&&◌, ◌||◌, not, Option, none, some, List, [],
  ◌∷◌, ◌++◌, map, ltb, leb, ◌==◌, if◌then◌else◌, length, list_eq, take, drop, concat,
}
use etha_jhol.Tokenizer.Bpe.{
  Word, new_word, push, pieces, Applied, settled, overrun, endless, apply_merges,
}
use etha_jhol.Tokenizer.ByteMap.{encode_byte_fwd}
use etha_jhol.Tokenizer.Utf8.{utf8_put}

-- `VG_Tokenizer`, as far as encoding reads it: `find_token_n` and `find_merge` stand for the vocabulary
-- and the merge rules, and an added token is its text and its id.
pub record Tokenizer : Type 0 where
  pub find : List ℕ → Option ℕ
  pub rank : List ℕ → List ℕ → Option ℕ
  pub gpt2_byte_map : Bool
  pub add_dummy_prefix : Bool
  pub remove_extra_ws : Bool
  pub added : List (List ℕ × ℕ)

abbrev pub tc_space : ℕ → Bool
tc_space c = (c == b' ') || (leb 9 c && leb c 13)

abbrev pub tc_digit : ℕ → Bool
tc_digit c = leb b'0' c && leb c b'9'

abbrev pub tc_alpha : ℕ → Bool
tc_alpha c = (leb b'A' c && leb c b'Z') || (leb b'a' c && leb c b'z') || leb 0x80 c

-- `while (test(*p)) ++p`: the bytes that are passed, and the rest.
unfoldable pub span : (ℕ → Bool) → List ℕ → List ℕ × List ℕ
span test [] = ([], [])
span test (c ∷ s) = let rest = span test s in if test c then (c ∷ rest.0, rest.1) else ([], c ∷ s)

-- The run of one class that the text begins with.
unfoldable pub next_run : List ℕ → List ℕ × List ℕ
unfolding span
next_run [] = ([], [])
next_run (c ∷ s) =
    if tc_alpha c
    then span tc_alpha (c ∷ s)
    else if tc_digit c
    then span tc_digit (c ∷ s)
    else if not (tc_space c)
    then span (λ x. not (tc_space x) && not (tc_alpha x) && not (tc_digit x)) (c ∷ s)
    else span tc_space (c ∷ s)

-- The text of the next word, and the rest: a single space in front belongs to the word.
unfoldable pub next_word : List ℕ → List ℕ × List ℕ
unfolding next_run
next_word [] = ([], [])
next_word (c ∷ s) =
    if c == b' ' then (let run = next_run s in (c ∷ run.0, run.1)) else next_run (c ∷ s)

-- The loop over the words, with `fuel` rounds; the length of the text is enough.
unfoldable pub words : ℕ → List ℕ → List (List ℕ)
unfolding next_word
words zero text = []
words (suc fuel) [] = []
words (suc fuel) (c ∷ s) = let word = next_word (c ∷ s) in word.0 ∷ words fuel word.1

-- A word's pieces: one for each byte.
unfoldable pub word_of : Word → List ℕ → Word
word_of w [] = w
word_of w (c ∷ s) = word_of (push w (encode_byte_fwd c)) s

-- `if (id < 0) id = 0;`
abbrev pub known_or_0 : Option ℕ → ℕ
known_or_0 none = 0
known_or_0 (some id) = id

-- `none` is an access outside a buffer.
abbrev pub Encoded : Type 0
Encoded = Option (List ℕ)

abbrev pub joined : Encoded → Encoded → Encoded
joined none more = none
joined (some ids) none = none
joined (some ids) (some more) = some (ids ++ more)

-- The length that the lead byte announces.
abbrev pub need_cp : List ℕ → ℕ
need_cp [] = 1
need_cp (lead ∷ s) =
    if leb 0xf0 lead then 4 else if leb 0xe0 lead then 3 else if leb 0xc0 lead then 2 else 1

-- `strncmp(p, s, l) == 0`
abbrev pub starts_with : List ℕ → List ℕ → Bool
starts_with p s = list_eq (take (length s) p) s

-- `match_added_token`, from the best length and id so far.
unfoldable pub match_added : List (List ℕ × ℕ) → List ℕ → ℕ × ℕ → ℕ × ℕ
match_added [] p best = best
match_added ((s, id) ∷ added) p best =
    match_added added p (if ltb best.0 (length s) && starts_with p s then (length s, id) else best)

module _ (tok : Tokenizer) where
  -- `emit_word`
  unfoldable pub emit_word : Word → List ℕ
  emit_word w = map (λ piece. known_or_0 (tok.find piece)) (pieces w)

  -- A word is merged, with more rounds than it has pieces, and emitted.
  unfoldable pub encode_word : List ℕ → Encoded
  unfolding emit_word word_of
  encode_word text =
      let w = word_of new_word text in
      elim (apply_merges tok.rank (suc (length (pieces w))) w) [
        | settled w' ↦ some (emit_word w')
        | overrun ↦ none
        | endless ↦ none
      ]

  unfoldable pub encode_words : List (List ℕ) → Encoded
  unfolding encode_word
  encode_words [] = some []
  encode_words (word ∷ rest) = joined (encode_word word) (encode_words rest)

  -- Spaces become U+2581, and where extra ones are removed, one behind another (or at the start) is
  -- left out.
  unfoldable pub normalize_from : Bool → List ℕ → List ℕ
  normalize_from prev_space [] = []
  normalize_from prev_space (q ∷ text) =
      let rest = normalize_from (q == b' ') text in
      let same = normalize_from prev_space text in
      if (q == b' ') && tok.remove_extra_ws && prev_space
      then same
      else if q == b' '
      then utf8_put 0x2581 ++ rest
      else q ∷ rest

  unfoldable pub normalize : List ℕ → List ℕ
  unfolding normalize_from
  normalize text =
      (if tok.add_dummy_prefix then utf8_put 0x2581 else []) ++ normalize_from true text

  -- The loop over the lengths, from `len` on, `left` of them: the last that is a token.
  unfoldable pub match_from : ℕ → ℕ → List ℕ → Option (ℕ × ℕ) → Option (ℕ × ℕ)
  match_from zero len s best = best
  match_from (suc left) len s best =
      match_from left (len + 1) s
        (elim (tok.find (take len s)) [ none ↦ best | some id ↦ some (id, len) ])

  -- The id and the length of the match; where nothing matches, 0 and the announced length.
  unfoldable pub next_match : List ℕ → ℕ × ℕ
  unfolding match_from
  next_match s = elim (match_from (min (length s) 511 + 1 - need_cp s) (need_cp s) s none) [
    | none ↦ (0, need_cp s)
    | some best ↦ best
  ]

  -- The loop over the normalized text, with `fuel` rounds; `none` is a step behind its zero byte.
  unfoldable pub encode_pieces : ℕ → List ℕ → Encoded
  unfolding next_match
  encode_pieces zero s = some []
  encode_pieces (suc fuel) [] = some []
  encode_pieces (suc fuel) (c ∷ s) =
      let hit = next_match (c ∷ s) in
      let rest = encode_pieces fuel (drop hit.1 (c ∷ s)) in
      if ltb (length (c ∷ s)) hit.1 then none else joined (some (hit.0 ∷ [])) rest

  -- `vg_tokenizer_encode_body`
  unfoldable pub encode_body : List ℕ → Encoded
  unfolding words encode_words normalize encode_pieces
  encode_body text =
      if tok.gpt2_byte_map
      then encode_words (words (length text) text)
      else (let norm = normalize text in encode_pieces (length norm) norm)

  -- `flush_segment`
  unfoldable pub flush_segment : List ℕ → Encoded
  unfolding encode_body
  flush_segment seg = if length seg == 0 then some [] else encode_body seg

  -- The loop of `vg_tokenizer_encode_impl`: `seg` is the text since the last added token.
  unfoldable pub encode_from : ℕ → List ℕ → List ℕ → Encoded
  unfolding match_added flush_segment
  encode_from zero seg p = flush_segment seg
  encode_from (suc fuel) seg [] = flush_segment seg
  encode_from (suc fuel) seg (c ∷ s) =
      let hit = match_added tok.added (c ∷ s) (0, 0) in
      let later = encode_from fuel (seg ++ c ∷ []) s in
      let behind = encode_from fuel [] (drop hit.0 (c ∷ s)) in
      if hit.0 == 0 then later else joined (flush_segment seg) (joined (some (hit.1 ∷ [])) behind)

  -- `vg_tokenizer_encode`
  unfoldable pub encode : List ℕ → Encoded
  unfolding encode_from
  encode text =
      if length tok.added == 0 then encode_body text else encode_from (length text) [] text
