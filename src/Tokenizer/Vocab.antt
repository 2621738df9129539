-- ===== src/Tokenizer/Vocab.antt =====
-- The vocabulary index of src/tokenizer.c: `vg_hash_bytes`, `vg_index_build`, `vg_index_insert` and
-- `find_token_n`. A token is told by its index in the vocabulary, which is its id.
-- The texts of the vocabulary are C strings, without zero bytes, so that `strlen` of one is its length.
pub mod Filled
pub mod Finds
use etha_jhol.Common.{
  ℕ, zero, suc, ◌+◌, ◌*◌, ◌%◌, ◌^◌, Bool, true, false, Option, none, some, List, [], ◌∷◌, bit_xor,
  ltb, if◌then◌else◌, list_eq, length, get_or, set, replicate,
}
use etha_jhol.Probe.Search.{Search, search, outcome}
use etha_jhol.Probe.Walk.{first_empty}

hash_from : ℕ → List ℕ → ℕ
hash_from h [] = h
hash_from h (p ∷ s) = hash_from (bit_xor h p * 1099511628211 % 2 ^ 64) s

-- `vg_hash_bytes`
unfoldable pub hash_bytes : List ℕ → ℕ
unfolding hash_from
hash_bytes s = hash_from 1469598103934665603 s

-- `VG_Index`: `none` is the slot 0, and `some i` the slot i + 1. The capacity is a power of two, so that
-- `& mask` is the remainder by it.
pub record Index : Type 0 where
  pub slot : List (Option ℕ)
  pub cap : ℕ

-- `while (cap < n * 2) cap *= 2`; a doubling adds at least one, so `n * 2` rounds are enough.
unfoldable pub index_cap : ℕ → ℕ → ℕ → ℕ
index_cap zero n cap = cap
index_cap (suc fuel) n cap =
    let more = index_cap fuel n (cap * 2) in if ltb cap (n * 2) then more else cap

-- `vg_index_build`
unfoldable pub index_build : ℕ → Index
unfolding index_cap
index_build n = let cap = index_cap (n * 2) n 16 in record { slot = replicate cap none; cap = cap }

abbrev pub at : List (Option ℕ) → ℕ → Option ℕ
at slot i = get_or slot i none

-- `vg_index_insert`; `none` is a loop that does not end.
unfoldable pub index_insert : Index → ℕ → ℕ → Option Index
index_insert ix hash value = elim (first_empty ix.cap (at ix.slot) ix.cap (hash % ix.cap)) [
  | none ↦ none
  | some i ↦ some (record ix { slot = set ix.slot i (some value) })
]

-- The loops of `vg_tokenizer_load` that enter the tokens and the merge rules, from number `i` on.
unfoldable pub index_from : {X : Type 0} → (X → ℕ) → ℕ → List X → Index → Option Index
unfolding index_insert
index_from hash i [] ix = some ix
index_from hash i (x ∷ xs) ix = elim (index_insert ix (hash x) i) [
  | none ↦ none
  | some ix' ↦ index_from hash (i + 1) xs ix'
]

unfoldable pub index_items : {X : Type 0} → (X → ℕ) → List X → Option Index
unfolding index_build index_from
index_items hash xs = index_from hash 0 xs (index_build (length xs))

unfoldable pub index_vocab : List (List ℕ) → Option Index
unfolding index_items hash_bytes
index_vocab vocab = index_items hash_bytes vocab

-- `strlen(tok->vocab[vi].text) == len && !memcmp(tok->vocab[vi].text, text, len)`
abbrev pub has_text : List (List ℕ) → List ℕ → ℕ → Bool
has_text vocab text vi = list_eq (get_or vocab vi []) text

-- `find_token_n`, with `none` for -1.
unfoldable pub find_token_n : Index → List (List ℕ) → List ℕ → Option ℕ
unfolding hash_bytes
find_token_n ix vocab text =
    outcome (search ix.cap (at ix.slot) (has_text vocab text) ix.cap (hash_bytes text % ix.cap))
