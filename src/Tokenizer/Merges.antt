-- ===== src/Tokenizer/Merges.antt =====
-- The merge rules of src/tokenizer.c: what `vg_tokenizer_load` reads of them, their index, and `find_merge`.
-- A rule is told by its number. The cursor of the scan takes the same steps whatever the size of the buffer.
pub mod Finds
use etha_jhol.Common.{
  ℕ, zero, suc, ◌+◌, ◌*◌, ◌%◌, ◌^◌, Bool, true, false, ◌&&◌, Option, none, some, List, [], ◌∷◌,
  bit_xor, ltb, ◌==◌, if◌then◌else◌, list_eq, length, get_or, drop,
}
use etha_jhol.Gguf.Reader.{c_string}
use etha_jhol.Probe.Ring.{next}
use etha_jhol.Tokenizer.Array.{hex4, entries_from}
use etha_jhol.Tokenizer.Utf8.{utf8_put}
use etha_jhol.Tokenizer.Vocab.{hash_bytes, Index, at, index_items}

-- `VG_Merge`
pub record Merge : Type 0 where
  pub a : List ℕ
  pub b : List ℕ
  pub rank : ℕ

-- The two sides of the first space.
unfoldable pub split_entry : List ℕ → Option (List ℕ × List ℕ)
split_entry [] = none
split_entry (c ∷ s) =
    let rest = split_entry s in
    if c == b' ' then some ([], s) else elim rest [ none ↦ none | some (a, b) ↦ some (c ∷ a, b) ]

-- A half of six bytes that begins with `\u` is a code point.
unfoldable pub unescape_half : List ℕ → List ℕ
unfolding hex4 c_string
unescape_half s =
    if (length s == 6) && ((get_or s 0 0 == b'\\') && (get_or s 1 0 == b'u'))
    then c_string (utf8_put (hex4 (drop 2 s)))
    else s

-- The loop over the entries, with the number of rules so far; an entry without a space is passed over.
unfoldable pub merges_from : ℕ → List (List ℕ) → List Merge
unfolding split_entry unescape_half c_string
merges_from rank [] = []
merges_from rank (entry ∷ entries) = elim (split_entry (c_string entry)) [
  | none ↦ merges_from rank entries
  | some (a, b) ↦
      record { a = unescape_half a; b = unescape_half b; rank = rank }
      ∷ merges_from (rank + 1) entries
]

-- The rules that `vg_tokenizer_load` reads from the metadata.
unfoldable pub read_merges : List ℕ → List Merge
unfolding merges_from entries_from
read_merges s = merges_from 0 (entries_from (length s) s)

unfoldable pub pair_hash : List ℕ → List ℕ → ℕ
unfolding hash_bytes
pair_hash a b = bit_xor (hash_bytes a) (hash_bytes b) * 1099511628211 % 2 ^ 64

abbrev pub merge_hash : Merge → ℕ
merge_hash m = pair_hash m.a m.b

-- The index of the rules; there is none where there are no rules.
unfoldable pub index_merges : List Merge → Option (Option Index)
unfolding index_items pair_hash
index_merges [] = some none
index_merges (m ∷ ms) = elim (index_items merge_hash (m ∷ ms)) [
  | none ↦ none
  | some ix ↦ some (some ix)
]

abbrev pub no_merge : Merge
no_merge = record { a = []; b = []; rank = 0 }

-- The test of the loop of `find_merge`.
abbrev pub is_pair : List Merge → List ℕ → List ℕ → ℕ → Bool
is_pair ms a b mi = list_eq (get_or ms mi no_merge).a a && list_eq (get_or ms mi no_merge).b b

-- The best rule so far, behind rule `mi`.
unfoldable pub better : List Merge → List ℕ → List ℕ → ℕ → Option ℕ → Option ℕ
better ms a b mi none = if is_pair ms a b mi then some mi else none
better ms a b mi (some best) =
    if is_pair ms a b mi && ltb (get_or ms mi no_merge).rank (get_or ms best no_merge).rank
    then some mi
    else some best

-- The loop, with a round for each slot; `none` is a loop that goes on.
unfoldable pub merge_from :
    ℕ → (ℕ → Option ℕ) → (ℕ → Option ℕ → Option ℕ) → ℕ → ℕ → Option ℕ → Option (Option ℕ)
merge_from n at step zero i best = none
merge_from n at step (suc fuel) i best = elim (at i) [
  | none ↦ some best
  | some mi ↦ merge_from n at step fuel (next n i) (step mi best)
]

-- `find_merge`, with `none` inside for SIZE_MAX.
unfoldable pub find_merge : Option Index → List Merge → List ℕ → List ℕ → Option (Option ℕ)
unfolding merge_from better pair_hash
find_merge none ms a b = some none
find_merge (some ix) ms a b =
    merge_from ix.cap (at ix.slot) (better ms a b) ix.cap (pair_hash a b % ix.cap) none
