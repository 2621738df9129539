-- ===== src/Gguf/Index.antt =====
-- Lookup by name of src/gguf.c: the two loops that fill a name index, and the searches of
-- `vg_gguf_find_tensor` and `vg_gguf_meta`.
pub mod Agrees
use etha_jhol.Common.{
  ℕ, zero, suc, ◌+◌, Bool, true, false, Option, none, some, List, [], ◌∷◌, ltb, if◌then◌else◌,
  list_eq, length, replicate,
}
use etha_jhol.Gguf.Hash.{Table, Entry, hash_find, hash_insert}
use etha_jhol.Probe.Search.{Search, lost, missing, hit}

-- `for (i...) hash_insert(&hash, &cap, names[i], (uint32_t)i)`, from `i` on; the result of each call
-- is ignored. An index is below 2^24, so that the cast keeps it.
unfoldable pub insert_from : ℕ → List (List ℕ) → Table → Option Table
insert_from i [] t = some t
insert_from i (name ∷ names) t = elim (hash_insert t name i) [
  | none ↦ none
  | some (t', new) ↦ insert_from (i + 1) names t'
]

-- The number of slots is the number of names, and at least 64.
unfoldable pub build_index : List (List ℕ) → Option Table
unfolding insert_from
build_index names =
    let cap = if ltb 64 (length names) then length names else 64 in
    insert_from 0 names (record { slots = replicate cap none; cap = cap })

-- The loop that compares every name, from index `i` on.
unfoldable pub linear_from : ℕ → List (List ℕ) → List ℕ → Option ℕ
linear_from i [] key = none
linear_from i (name ∷ names) key =
    if list_eq name key then some i else linear_from (i + 1) names key

-- The index first, and the loop where the index does not hold the name.
unfoldable pub find_name : Table → List (List ℕ) → List ℕ → Option ℕ
unfolding linear_from
find_name t names key = elim (hash_find t key) [
  | lost ↦ linear_from 0 names key
  | missing i ↦ linear_from 0 names key
  | hit i e ↦ some e.index
]
