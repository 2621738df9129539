-- ===== src/Tokenizer/Bpe.antt =====
-- Byte-pair merging of src/tokenizer.c: `BpeWord`, `bpe_word_push` and `bpe_word_apply`. The merge
-- rules are read through `rank a b`, the rank of the rule that `find_merge` gives for a pair.
pub mod Words
pub mod Settles
pub mod Lowest
use etha_jhol.Common.{
  ℕ, zero, suc, ◌+◌, Bool, true, false, Option, none, some, List, [], ◌∷◌, ◌++◌, map, ltb, leb,
  ◌==◌, if◌then◌else◌, length, take, drop,
}

-- `BpeWord`: the bytes in front of the zero byte, and the offset and the length of each piece. Both
-- buffers grow by doubling to what is needed.
pub record Word : Type 0 where
  pub bytes : List ℕ
  pub spans : List (ℕ × ℕ)

-- A word that is all zero.
abbrev pub new_word : Word
new_word = record { bytes = []; spans = [] }

-- `bpe_word_push`
unfoldable pub push : Word → List ℕ → Word
push w piece = record {
  bytes = w.bytes ++ piece;
  spans = w.spans ++ (length w.bytes, length piece) ∷ [];
}

-- `w->bytes + w->off[i]`, of length `w->len[i]`.
abbrev pub piece_at : List ℕ → ℕ × ℕ → List ℕ
piece_at bytes (off, len) = take len (drop off bytes)

unfoldable pub pieces : Word → List (List ℕ)
pieces w = map (piece_at w.bytes) w.spans

-- The result of the loop: a word, a write behind `merged[512]`, or a loop that needs more rounds.
pub data Applied : Type 0 where
  settled : Word → Applied
  overrun endless : Applied

-- The best pair so far: its rank and its index.
unfoldable pub better_pair : Option ℕ → ℕ → Option (ℕ × ℕ) → Option (ℕ × ℕ)
better_pair none i best = best
better_pair (some rank) i none = some (rank, i)
better_pair (some rank) i (some (best_rank, best_i)) =
    if ltb rank best_rank then some (rank, i) else some (best_rank, best_i)

-- The piece that round `i` pushes: `none` if it pushes no piece.
pub data Pushed : Type 0 where
  pushed : Word → Pushed
  too_long : Pushed

unfoldable pub push_round : ℕ → ℕ → List ℕ → List (List ℕ) → Word → Pushed
unfolding push
push_round best_i i a [] w = if i == best_i + 1 then pushed w else pushed (push w a)
push_round best_i i a (b ∷ rest) w =
    if i == best_i
    then (if leb (length a + length b) 512 then pushed (push w (a ++ b)) else too_long)
    else if i == best_i + 1
    then pushed w
    else pushed (push w a)

-- The loop that builds the new word from the pieces of the old one, from piece `i` on.
unfoldable pub rebuild : ℕ → ℕ → List (List ℕ) → Word → Option Word
unfolding push_round
rebuild best_i i [] w = some w
rebuild best_i i (a ∷ rest) w = elim (push_round best_i i a rest w) [
  | too_long ↦ none
  | pushed w' ↦ rebuild best_i (i + 1) rest w'
]

module _ (rank : List ℕ → List ℕ → Option ℕ) where
  -- The loop over adjacent pieces, from piece `i` on.
  unfoldable pub best_pair : ℕ → List (List ℕ) → Option (ℕ × ℕ) → Option (ℕ × ℕ)
  unfolding better_pair
  best_pair i [] best = best
  best_pair i (a ∷ []) best = best
  best_pair i (a ∷ b ∷ rest) best = best_pair (i + 1) (b ∷ rest) (better_pair (rank a b) i best)

  -- `bpe_word_apply`; the first argument bounds its rounds. The early return with no merge rules is
  -- the case where no pair has a rank.
  unfoldable pub apply_merges : ℕ → Word → Applied
  unfolding best_pair rebuild pieces
  apply_merges zero w = endless
  apply_merges (suc fuel) w = elim (best_pair 0 (pieces w) none) [
    | none ↦ settled w
    | some (best_rank, best_i) ↦ elim (rebuild best_i 0 (pieces w) new_word) [
      | none ↦ overrun
      | some w' ↦ apply_merges fuel w'
    ]
  ]
