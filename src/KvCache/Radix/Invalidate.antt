-- ===== src/KvCache/Radix/Invalidate.antt =====
-- After an invalidation no lookup finds a snapshot.
use etha_jhol.Common.{
  ℕ, ◌+◌, ◌≡◌, refl, ap, ◌∙◌, Bool, true, false, Option, none, List, [], ◌∷◌, arith, ◌==◌,
  if◌then◌else◌, length, drop,
}
use etha_jhol.KvCache.Radix.{
  Mark, Nodes, no_nodes, node, Radix, common, starts, usable, better, lookup_from, radix_lookup,
  invalidate_all, radix_invalidate,
}
use etha_jhol.KvCache.Radix.Prefix.{Absent, IsTrie}

if-both {ℓ} : {A : Type ℓ} (b : Bool) {x y z : A} → x ≡ z → y ≡ z → (if b then x else y) ≡ z
if-both true p q = p
if-both false p q = q

module _ {ℓ} {S : Type ℓ} where
  cleared : Mark S → Mark S
  cleared m = record m { snapshot = none }

  usable-cleared : (m : Mark S) → usable (cleared m) ≡ none
  unfolding usable cleared
  usable-cleared m = ground arith

  lookup-invalidate :
      (cs : Nodes S) (ts : List ℕ) (pos : ℕ) (best : Option (ℕ × S))
      → lookup_from (invalidate_all cs) ts pos best ≡ best
  unfolding lookup_from invalidate_all better cleared
  lookup-invalidate no_nodes ts pos best = refl
  lookup-invalidate (node tokens m child rest) [] pos best = refl
  lookup-invalidate (node tokens m child rest) (t ∷ ts) pos best =
      let k = common (t ∷ ts) tokens in
      if-both (starts tokens t)
        (if-both (k == length tokens)
          (lookup-invalidate child (drop k (t ∷ ts)) (pos + k)
              (better (usable (cleared m)) (pos + k) best)
            ∙ ap (λ (o : Option S). better o (pos + k) best) (usable-cleared m))
          refl)
        (lookup-invalidate rest (t ∷ ts) pos best)

  invalidate-Absent : (t : ℕ) (cs : Nodes S) → Absent t cs → Absent t (invalidate_all cs)
  unfolding invalidate_all
  invalidate-Absent t no_nodes h = tt
  invalidate-Absent t (node tokens m child rest) h = (h.0, invalidate-Absent t rest h.1)

  invalidate-IsTrie : (cs : Nodes S) → IsTrie cs → IsTrie (invalidate_all cs)
  unfolding invalidate_all
  invalidate-IsTrie no_nodes h = tt
  invalidate-IsTrie (node [] m child rest) h = h
  invalidate-IsTrie (node (t ∷ tokens) m child rest) h =
      (invalidate-Absent t rest h.0, invalidate-IsTrie child h.1, invalidate-IsTrie rest h.2)

  -- After an invalidation of a trie, whatever the identities, the tree is a trie as before and no lookup finds
  -- a snapshot.
  pub radix_invalidate-lookup :
      (r : Radix S) (model adapter : ℕ) (ts : List ℕ)
      → IsTrie r.child
      → IsTrie (radix_invalidate r model adapter).child
        × (radix_lookup (radix_invalidate r model adapter) ts ≡ none)
  unfolding radix_invalidate radix_lookup
  radix_invalidate-lookup r model adapter ts h =
      (invalidate-IsTrie r.child h, lookup-invalidate r.child ts 0 none)
