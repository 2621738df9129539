-- ===== src/Tests/Merges.antt =====
-- Byte-pair merging at concrete inputs, with two merge rules.
use etha_jhol.Common.{
  ℕ, ◌≡◌, ◌≤◌, refl, arith, ◌&&◌, Option, none, some, List, [], ◌∷◌, concat, list_eq, if◌then◌else◌,
}
use etha_jhol.Tokenizer.Bpe.{Word, new_word, push, pieces, settled, apply_merges, best_pair}
use etha_jhol.Tokenizer.Bpe.Words.{push-IsWord, new_word-IsWord}
use etha_jhol.Tokenizer.Bpe.Lowest.{rank_at, best_pair-lowest}
use etha_jhol.Tokenizer.Bpe.Settles.{NoPair, apply_merges-NoPair}

-- b c is merged before a b.
abbrev two_rules : List ℕ → List ℕ → Option ℕ
two_rules a b =
    if list_eq a (b'a' ∷ []) && list_eq b (b'b' ∷ [])
    then some 1
    else if list_eq a (b'b' ∷ []) && list_eq b (b'c' ∷ [])
    then some 0
    else none

abbrev a_word : Word
a_word = push (push (push new_word (b'a' ∷ [])) (b'b' ∷ [])) (b'c' ∷ [])

merges_the_lowest_rank :
    apply_merges two_rules 4 a_word ≡ settled (push (push new_word (b'a' ∷ [])) (b'b' ∷ b'c' ∷ []))
unfolding apply_merges push
merges_the_lowest_rank = refl

apply_merges-NoPair_example :
    (w : Word) × (apply_merges two_rules 4 a_word ≡ settled w)
    × (w.bytes ≡ a_word.bytes)
    × (concat (pieces w) ≡ a_word.bytes)
    × NoPair two_rules (pieces w)
unfolding pieces push
apply_merges-NoPair_example =
    apply_merges-NoPair two_rules 4 a_word
      (push-IsWord (push (push new_word (b'a' ∷ [])) (b'b' ∷ [])) (b'c' ∷ []) (
        push-IsWord (push new_word (b'a' ∷ [])) (b'b' ∷ [])
          (push-IsWord new_word (b'a' ∷ []) new_word-IsWord)))
      (omega arith) (omega arith)

abbrev always : List ℕ → List ℕ → Option ℕ
always a b = some 0

best_pair-lowest_example :
    (rank_at two_rules 1 ((b'a' ∷ []) ∷ (b'b' ∷ []) ∷ (b'c' ∷ []) ∷ []) ≡ some 0) × (0 ≤ 1)
unfolding best_pair rank_at
best_pair-lowest_example =
    best_pair-lowest two_rules ((b'a' ∷ []) ∷ (b'b' ∷ []) ∷ (b'c' ∷ []) ∷ []) 0 1 0 1 refl refl
