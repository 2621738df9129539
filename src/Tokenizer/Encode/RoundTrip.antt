-- ===== src/Tokenizer/Encode/RoundTrip.antt =====
-- Encoding under the GPT-2 byte map: the texts of the ids are the mapped bytes of the text.
use etha_jhol.Common.{
  ℕ, zero, suc, ◌+◌, ◌*◌, ◌<◌, ◌≤◌, ◌≡◌, inl, inr, refl, sym, ap, ap₂, ◌∙◌, subst, arith, Bool,
  true, false, Option, none, some, List, [], ◌∷◌, ◌++◌, map, if◌then◌else◌, length, length-append,
  concat, append-nil, append_assoc, concat-append, map-append, Option-cases, All, All-append,
}
use etha_jhol.Tokenizer.Bpe.{Word, new_word, push, pieces, settled, best_pair, apply_merges}
use etha_jhol.Tokenizer.Bpe.Lowest.{rank_at, best_pair-source}
use etha_jhol.Tokenizer.Bpe.Settles.{
  length-joined, concat-joined, stop_round, merge_round, round-Builds,
}
use etha_jhol.Tokenizer.Bpe.Words.{IsWord, push-pieces, push-IsWord, new_word-IsWord}
use etha_jhol.Tokenizer.Bpe.Words
use etha_jhol.Tokenizer.ByteMap.{encode_byte_fwd}
use etha_jhol.Tokenizer.Encode.{
  Tokenizer, known_or_0, word_of, words, emit_word, encode_word, encode_words, encode_body,
}
use etha_jhol.Tokenizer.Encode.Split.{words-whole}

-- What holds of every piece, and of every pair that a rule joins, holds after the merging.
module _ (rank : List ℕ → List ℕ → Option ℕ) (P : List ℕ → Type 0)
    (merged : (a b : List ℕ) (r : ℕ) → rank a b ≡ some r → P a → P b → P (a ++ b)) where
  All-joined :
      (k : ℕ) (ps : List (List ℕ)) (r : ℕ)
      → rank_at rank k ps ≡ some r
      → All P ps
      → All P (Words.joined k ps)
  unfolding rank_at Words.joined
  All-joined k [] r h all = tt
  All-joined k (a ∷ []) r h all = all
  All-joined zero (a ∷ b ∷ rest) r h (here, (next, all)) = (merged a b r h here next, all)
  All-joined (suc k) (a ∷ b ∷ rest) r h (here, all) = (here, All-joined k (b ∷ rest) r h all)

  best_pair-rank_at :
      (ps : List (List ℕ)) (r k : ℕ)
      → best_pair rank 0 ps none ≡ some (r, k)
      → rank_at rank k ps ≡ some r
  best_pair-rank_at ps r k h = elim (best_pair-source rank 0 ps none h) [
    | inl q ↦ cc q
    | inr (d, same, there) ↦ let eq : k ≡ d = omega (arith, same) in rw eq there
  ]

  apply_merges-All :
      (fuel : ℕ) (w : Word)
      → IsWord w
      → length (pieces w) < fuel
      → length w.bytes ≤ 512
      → All P (pieces w)
      → (w' : Word) × (apply_merges rank fuel w ≡ settled w')
        × (concat (pieces w') ≡ w.bytes)
        × All P (pieces w')
  apply_merges-All zero w h lt small all = absurd (omega arith)
  apply_merges-All (suc fuel) w h lt small all =
      elim (Option-cases (best_pair rank 0 (pieces w) none)) [
        | inl e ↦ (w, stop_round rank fuel w e, h.whole, all)
        | inr ((r, k), e) ↦
            let (b, bound) = round-Builds rank w h small e in
            let fewer : length (pieces b.word) + 1 ≡ length (pieces w) =
              ap (λ (ps : List (List ℕ)). length ps + 1) b.has ∙ length-joined k (pieces w) bound in
            let bytes : b.word.bytes ≡ w.bytes =
              sym b.is_word.whole ∙ ap concat b.has ∙ concat-joined k (pieces w) ∙ h.whole in
            let still : All P (pieces b.word) =
              subst (All P) (sym b.has)
                (All-joined k (pieces w) r (best_pair-rank_at (pieces w) r k e) all) in
            let (w', run, whole, all') =
              apply_merges-All fuel b.word b.is_word (omega (arith, fewer, lt))
                (omega (arith, ap length bytes, small)) still in
            (w', merge_round rank fuel w b.word e b.built ∙ run, whole ∙ bytes, all')
      ]

word_of-pieces :
    (w : Word) (s : List ℕ)
    → IsWord w
    → (pieces (word_of w s) ≡ pieces w ++ map encode_byte_fwd s) × IsWord (word_of w s)
unfolding word_of
word_of-pieces w [] h = (sym (append-nil (pieces w)), h)
word_of-pieces w (c ∷ s) h =
    let (rest, word) =
      word_of-pieces (push w (encode_byte_fwd c)) s (push-IsWord w (encode_byte_fwd c) h) in
    (
      rest
          ∙ ap (λ ps. ps ++ map encode_byte_fwd s) (push-pieces w (encode_byte_fwd c) h)
          ∙ append_assoc (pieces w) (encode_byte_fwd c ∷ []) (map encode_byte_fwd s),
      word,
    )

encode_byte_fwd-most : (b : ℕ) → length (encode_byte_fwd b) ≤ 2
unfolding encode_byte_fwd
encode_byte_fwd-most b = ground arith

concat-most : (s : List ℕ) → length (concat (map encode_byte_fwd s)) ≤ length s * 2
concat-most [] = omega arith
concat-most (c ∷ s) = omega (
  arith,
  length-append (encode_byte_fwd c) (concat (map encode_byte_fwd s)),
  encode_byte_fwd-most c,
  concat-most s,
)

All-split : (P : ℕ → Type 0) (xs ys : List ℕ) → All P (xs ++ ys) → All P xs × All P ys
All-split P [] ys h = (tt, h)
All-split P (x ∷ xs) ys (here, rest) =
    let (mine, others) = All-split P xs ys rest in ((here, mine), others)

pub if_true : {A : Type 0} (b : Bool) (x y : A) → b ≡ true → (if b then x else y) ≡ x
if_true true x y h = refl
if_true false x y h = cc h

-- The text of bytes under the byte map.
abbrev pub IsMapped : List ℕ → Type 0
IsMapped piece = (s : List ℕ) × All (λ c. c < 256) s × (piece ≡ concat (map encode_byte_fwd s))

IsMapped-append : (a b : List ℕ) → IsMapped a → IsMapped b → IsMapped (a ++ b)
IsMapped-append a b (s, small, e) (t, small', e') = (
  s ++ t,
  All-append (λ c. c < 256) s t small small',
  ap₂ ◌++◌ e e'
      ∙ sym (concat-append (map encode_byte_fwd s) (map encode_byte_fwd t))
      ∙ ap concat (sym (map-append encode_byte_fwd s t)),
)

IsMapped-bytes : (s : List ℕ) → All (λ c. c < 256) s → All IsMapped (map encode_byte_fwd s)
IsMapped-bytes [] small = tt
IsMapped-bytes (c ∷ s) (here, small) =
    ((c ∷ [], (here, tt), sym (append-nil (encode_byte_fwd c))), IsMapped-bytes s small)

All-both :
    (P Q : List ℕ → Type 0) (xs : List (List ℕ)) → All P xs → All Q xs → All (λ x. P x × Q x) xs
All-both P Q [] h k = tt
All-both P Q (x ∷ xs) (h, hs) (k, ks) = ((h, k), All-both P Q xs hs ks)

-- The id of each piece has the text of the piece.
module _ (tok : Tokenizer) (text : ℕ → List ℕ)
    (texts : (piece : List ℕ) (id : ℕ) → tok.find piece ≡ some id → text id ≡ piece)
    (merges : (a b : List ℕ) (r : ℕ)
      → tok.rank a b ≡ some r
      → (id : ℕ) × (tok.find (a ++ b) ≡ some id)) where
  abbrev pub IsKnown : List ℕ → Type 0
  IsKnown piece = (id : ℕ) × (tok.find piece ≡ some id)

  IsPiece : List ℕ → Type 0
  IsPiece piece = IsKnown piece × IsMapped piece

  texts-whole :
      (ps : List (List ℕ))
      → All IsPiece ps
      → let ids = map (λ piece. known_or_0 (tok.find piece)) ps in
        (concat (map text ids) ≡ concat ps) × All (λ id. IsMapped (text id)) ids
  unfolding IsPiece
  texts-whole [] all = (refl, tt)
  texts-whole (p ∷ ps) (((id, found), mapped), all) =
      let here : text (known_or_0 (tok.find p)) ≡ p =
        ap (λ o. text (known_or_0 o)) found ∙ texts p id found in
      let (whole, rest) = texts-whole ps all in
      (ap₂ ◌++◌ here whole, (subst IsMapped (sym here) mapped, rest))

  IsKnown-bytes :
      (s : List ℕ) → All (λ c. IsKnown (encode_byte_fwd c)) s → All IsKnown (map encode_byte_fwd s)
  IsKnown-bytes [] all = tt
  IsKnown-bytes (c ∷ s) (here, all) = (here, IsKnown-bytes s all)

  encode_word-texts :
      (word : List ℕ)
      → All (λ c. IsKnown (encode_byte_fwd c)) word
      → All (λ c. c < 256) word
      → length word ≤ 256
      → (ids : List ℕ) × (encode_word tok word ≡ some ids)
        × (concat (map text ids) ≡ concat (map encode_byte_fwd word))
        × All (λ id. IsMapped (text id)) ids
  unfolding encode_word emit_word pieces IsPiece
  encode_word-texts word known small short =
      let w = word_of new_word word in
      let (spelled, is_word) = word_of-pieces new_word word new_word-IsWord in
      let bytes : w.bytes ≡ concat (map encode_byte_fwd word) =
        sym is_word.whole ∙ ap concat spelled in
      let (w', run, whole, all) =
        apply_merges-All tok.rank IsPiece
          (λ a b r h ka kb. (merges a b r h, IsMapped-append a b ka.1 kb.1))
          (suc (length (pieces w))) w is_word (omega arith)
          (omega (arith, ap length bytes, concat-most word, short))
          (subst (All IsPiece) (sym spelled) (
            All-both IsKnown IsMapped (map encode_byte_fwd word) (IsKnown-bytes word known)
              (IsMapped-bytes word small))) in
      let (same, mapped) = texts-whole (pieces w') all in
      (emit_word tok w', rw (encode_word, run) refl, same ∙ whole ∙ bytes, mapped)

  encode_words-texts :
      (ws : List (List ℕ))
      → All (λ word. length word ≤ 256) ws
      → All (λ c. IsKnown (encode_byte_fwd c)) (concat ws)
      → All (λ c. c < 256) (concat ws)
      → (ids : List ℕ) × (encode_words tok ws ≡ some ids)
        × (concat (map text ids) ≡ concat (map encode_byte_fwd (concat ws)))
        × All (λ id. IsMapped (text id)) ids
  unfolding encode_words
  encode_words-texts [] short known small = ([], refl, refl, tt)
  encode_words-texts (word ∷ ws) (here, short) known small =
      let (mine, others) = All-split (λ c. IsKnown (encode_byte_fwd c)) word (concat ws) known in
      let (my_bytes, other_bytes) = All-split (λ c. c < 256) word (concat ws) small in
      let (ids, run, spells, mapped) = encode_word-texts word mine my_bytes here in
      let (more, run', spells', mapped') = encode_words-texts ws short others other_bytes in
      (
        ids ++ more,
        rw (encode_words, run, run') refl,
        ap concat (map-append text ids more)
            ∙ concat-append (map text ids) (map text more)
            ∙ ap₂ ◌++◌ spells spells'
            ∙ sym (concat-append (map encode_byte_fwd word) (map encode_byte_fwd (concat ws)))
            ∙ ap concat (sym (map-append encode_byte_fwd word (concat ws))),
        All-append (λ id. IsMapped (text id)) ids more mapped mapped',
      )

  -- The ids of a text: their texts are the text under the byte map, each of them of whole bytes.
  pub encode_body-texts :
      (s : List ℕ)
      → tok.gpt2_byte_map ≡ true
      → All (λ c. c < 256) s
      → All (λ c. IsKnown (encode_byte_fwd c)) s
      → All (λ word. length word ≤ 256) (words (length s) s)
      → (ids : List ℕ) × (encode_body tok s ≡ some ids)
        × (concat (map text ids) ≡ concat (map encode_byte_fwd s))
        × All (λ id. IsMapped (text id)) ids
  unfolding encode_body
  encode_body-texts s byte_map bytes known short =
      let (whole, filled) = words-whole (length s) s (omega arith) in
      let (ids, run, spells, mapped) =
        encode_words-texts (words (length s) s) short
          (subst (All (λ c. IsKnown (encode_byte_fwd c))) (sym whole) known)
          (subst (All (λ c. c < 256)) (sym whole) bytes) in
      (
        ids,
        if_true tok.gpt2_byte_map (encode_words tok (words (length s) s)) _ byte_map ∙ run,
        spells ∙ ap (λ t. concat (map encode_byte_fwd t)) whole,
        mapped,
      )
