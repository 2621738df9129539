-- ===== src/Tests/Cache.antt =====
-- A small radix tree, and the theorems about the cache at concrete inputs. Snapshots are numbers.
use etha_jhol.Common.{
  ℕ, ◌≡◌, refl, arith, Bool, true, false, none, some, [], ◌∷◌, if◌then◌else◌, list_eq, take,
}
use etha_jhol.Common.Result.{ok}
use etha_jhol.KvCache.Radix.{
  Mark, no_nodes, node, Radix, blank, starts, radix_lookup, radix_insert, insert_at,
}
use etha_jhol.KvCache.Radix.Prefix.{IsTrie}
use etha_jhol.KvCache.Radix.Insert.{held, radix_insert-held}
use etha_jhol.KvCache.Radix.Lookup.{Longest, radix_lookup-Longest}

abbrev mark : ℕ → Bool → Mark ℕ
mark s tainted = record { snapshot = some s; semantic_fingerprint = 7; tainted = tainted }

-- After the insertions of 1 2 3 4 and of 1 2 9.
abbrev a_tree : Radix ℕ
a_tree = record {
  root = blank;
  child =
      node (1 ∷ 2 ∷ []) blank
        (node (3 ∷ 4 ∷ []) (mark 70 false) no_nodes
          (node (9 ∷ []) (mark 71 true) no_nodes no_nodes))
        no_nodes;
}

a_tree-IsTrie : IsTrie a_tree.child
unfolding starts
a_tree-IsTrie = (tt, ((refl, tt), tt, (tt, tt, tt)), tt)

two_insertions :
    insert_at
      (insert_at (record { root = blank; child = no_nodes }) (1 ∷ 2 ∷ 3 ∷ 4 ∷ []) (mark 70 false))
      (1 ∷ 2 ∷ 9 ∷ [])
      (mark 71 true)
    ≡ a_tree
unfolding insert_at
two_insertions = refl

skips_the_tainted : radix_lookup a_tree (1 ∷ 2 ∷ 9 ∷ []) ≡ none
unfolding radix_lookup
skips_the_tainted = refl

finds_the_prefix : radix_lookup a_tree (1 ∷ 2 ∷ 3 ∷ 4 ∷ 5 ∷ []) ≡ some (4, 70)
unfolding radix_lookup
finds_the_prefix = refl

radix_insert-held_example :
    (r' : Radix ℕ) × (radix_insert a_tree (1 ∷ 5 ∷ 6 ∷ []) 2 72 8 false ≡ ok r')
    × IsTrie r'.child
    × (held r' (1 ∷ 2 ∷ 9 ∷ []) ≡ (
        if list_eq (1 ∷ 2 ∷ 9 ∷ []) (take 2 (1 ∷ 5 ∷ 6 ∷ []))
        then some (record { snapshot = some 72; semantic_fingerprint = 8; tainted = false })
        else held a_tree (1 ∷ 2 ∷ 9 ∷ [])))
radix_insert-held_example =
    radix_insert-held a_tree (1 ∷ 5 ∷ 6 ∷ []) 2 72 8 false (1 ∷ 2 ∷ 9 ∷ []) a_tree-IsTrie
      (omega arith)

radix_lookup-Longest_example :
    Longest a_tree.child (1 ∷ 2 ∷ 3 ∷ 4 ∷ 5 ∷ []) (radix_lookup a_tree (1 ∷ 2 ∷ 3 ∷ 4 ∷ 5 ∷ []))
radix_lookup-Longest_example = radix_lookup-Longest a_tree (1 ∷ 2 ∷ 3 ∷ 4 ∷ 5 ∷ []) a_tree-IsTrie
