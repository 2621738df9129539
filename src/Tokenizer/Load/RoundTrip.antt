-- ===== src/Tokenizer/Load/RoundTrip.antt =====
-- A tokenizer that was loaded encodes a text and decodes it again.
use etha_jhol.Common.{
  ℕ, suc, ◌+◌, ◌-◌, ◌≤◌, ◌<◌, ◌≡◌, inl, inr, sym, ap, ◌∙◌, subst, arith, true, ◌&&◌, Option, some,
  List, [], ◌∷◌, ◌++◌, length, get_or, ◌==◌, list_eq, list_eq→eq, Bool-cases, All, All-map,
}
use etha_jhol.Common.Result.{ok}
use etha_jhol.Gguf.Index.{linear_from}
use etha_jhol.Tokenizer.ByteMap.{encode_byte_fwd, decode_gpt2}
use etha_jhol.Tokenizer.ByteMap.RoundTrip.{decode_gpt2-encode_byte_fwd}
use etha_jhol.Tokenizer.Decode.{decode_sequence}
use etha_jhol.Tokenizer.Decode.Mapped.{decode_sequence-text}
use etha_jhol.Tokenizer.Encode.{Tokenizer, words, encode_body, encode}
use etha_jhol.Tokenizer.Encode.RoundTrip.{if_true, encode_body-texts}
use etha_jhol.Tokenizer.Load.{Loaded, tokenizer_of, load}
use etha_jhol.Tokenizer.Load.Sound.{IsSound, load-IsSound}
use etha_jhol.Tokenizer.Merges.{Merge}
use etha_jhol.Tokenizer.Merges.Finds.{rule_from}

-- A token of the vocabulary has this text.
abbrev pub HasText : List (List ℕ) → List ℕ → Type 0
HasText vocab piece = (id : ℕ) × (linear_from 0 vocab piece ≡ some id)

linear_from-get_or :
    (i : ℕ) (xs : List (List ℕ)) (piece : List ℕ) (id : ℕ)
    → linear_from i xs piece ≡ some id
    → (i ≤ id) × (get_or xs (id - i) [] ≡ piece)
unfolding linear_from
linear_from-get_or i [] piece id h = cc
linear_from-get_or i (x ∷ xs) piece id h = elim (Bool-cases (list_eq x piece)) [
  | inl same ↦
      let e : i ≡ id = cc (rw (same, linear_from) at h) in
      (
        omega (arith, e),
        ap (λ k. get_or (x ∷ xs) k []) {x = id - i} {y = 0} (omega (arith, e))
            ∙ list_eq→eq x piece same,
      )
  | inr other ↦
      let (le, text) = linear_from-get_or (i + 1) xs piece id (rw (other, linear_from) at h) in
      (
        omega (arith, le),
        ap (λ k. get_or (x ∷ xs) k []) {x = id - i} {y = suc (id - (i + 1))} (omega (arith, le))
            ∙ text,
      )
]

rule_from-All :
    (P : List ℕ → Type 0) (i : ℕ) (ms : List Merge) (a b : List ℕ) (r : ℕ)
    → All (λ m. P (m.a ++ m.b)) ms
    → rule_from i ms a b ≡ some r
    → P (a ++ b)
unfolding rule_from
rule_from-All P i [] a b r all h = cc
rule_from-All P i (m ∷ ms) a b r (here, all) h =
    elim (Bool-cases (list_eq m.a a && list_eq m.b b)) [
      | inl same ↦
          subst P
            (ap (λ x. x ++ m.b) (list_eq→eq m.a a (ground arith))
              ∙ ap (λ x. a ++ x) (list_eq→eq m.b b (ground arith)))
            here
      | inr other ↦ rule_from-All P (i + 1) ms a b r all (rw (other, rule_from) at h)
    ]

loaded-IsSound :
    (meta : List ℕ → Option (List ℕ)) (t : Loaded) → load meta ≡ some (ok t) → IsSound t
loaded-IsSound meta t loaded = elim (load-IsSound meta) [
  | inl (none_there, failed) ↦ cc (sym failed ∙ loaded)
  | inr (t', loaded', whole, some_token, sound) ↦
      let same : t' ≡ t = cc (sym loaded' ∙ loaded) in subst IsSound same sound
]

encode-plain : (tok : Tokenizer) (s : List ℕ) → tok.added ≡ [] → encode tok s ≡ encode_body tok s
unfolding encode
encode-plain tok s plain =
    if_true (length tok.added == 0) (encode_body tok s) _ (ap (λ a. length a == 0) plain)

the_token :
    (t : Loaded)
    → IsSound t
    → (piece : List ℕ) → HasText t.vocab piece
    → (id : ℕ) × ((tokenizer_of t).find piece ≡ some id)
the_token t sound piece (id, found) = (id, sound.finds piece ∙ found)

-- A tokenizer that `vg_tokenizer_load` gives, with the byte map and no added tokens, whose vocabulary has the
-- two sides of every merge rule as one token: every text of bytes that the vocabulary has as tokens, of
-- words of at most 256 bytes, is encoded, and `vg_tokenizer_decode_sequence` of the ids gives the text back.
pub load-encode-decode :
    (meta : List ℕ → Option (List ℕ)) (t : Loaded)
    → load meta ≡ some (ok t)
    → t.gpt2_byte_map ≡ true
    → t.added ≡ []
    → All (λ m. HasText t.vocab (m.a ++ m.b)) t.merges
    → (s : List ℕ) → All (λ c. c < 256) s
    → All (λ c. HasText t.vocab (encode_byte_fwd c)) s
    → All (λ word. length word ≤ 256) (words (length s) s)
    → (ids : List ℕ) × (encode (tokenizer_of t) s ≡ some ids)
      × (decode_sequence t.gpt2_byte_map t.vocab ids ≡ s)
unfolding tokenizer_of
load-encode-decode meta t loaded byte_map plain joined s bytes known short =
    let sound = loaded-IsSound meta t loaded in
    let tok = tokenizer_of t in
    let text = λ (id : ℕ). get_or t.vocab id [] in
    let texts = λ (piece : List ℕ) (id : ℕ) (h : tok.find piece ≡ some id).
      ap text {x = id} {y = id - 0} (omega arith)
      ∙ (linear_from-get_or 0 t.vocab piece id (sym (sound.finds piece) ∙ h)).1 in
    let merges = λ (a b : List ℕ) (r : ℕ) (h : tok.rank a b ≡ some r).
      the_token t sound (a ++ b)
        (rule_from-All (HasText t.vocab) 0 t.merges a b r joined (sym (sound.ranks a b) ∙ h)) in
    let (ids, run, spells, mapped) =
      encode_body-texts tok text texts merges s byte_map bytes
        (All-map (λ c. HasText t.vocab (encode_byte_fwd c)) _ s
          (λ c h. the_token t sound (encode_byte_fwd c) h) known)
        short in
    (
      ids,
      encode-plain tok s plain ∙ run,
      ap (λ b. decode_sequence b t.vocab ids) byte_map
          ∙ decode_sequence-text t.vocab ids mapped
          ∙ ap decode_gpt2 spells
          ∙ decode_gpt2-encode_byte_fwd s bytes,
    )
