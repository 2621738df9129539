-- ===== src/KvCache/Radix/Insert.antt =====
-- Insertion puts one prefix into the map, leaves every other as it was, and keeps the tree a trie.
use etha_jhol.Common.{
  ℕ, suc, ◌≤◌, ◌≡◌, inl, inr, refl, sym, ap, ◌∙◌, Bool, true, false, Option, some, List, [], ◌∷◌,
  ◌++◌, arith, leb, ◌==◌, if◌then◌else◌, length, list_eq, ==_iff, ==_refl, take, Option-cases,
  Bool-cases,
}
use etha_jhol.Common.Result.{ok}
use etha_jhol.KvCache.Radix.{
  Mark, Nodes, no_nodes, node, Radix, common, starts, place, insert_at, radix_insert,
}
use etha_jhol.KvCache.Radix.Prefix.{strip, Parts, parts, visible, stored, Absent, IsTrie}
use etha_jhol.KvCache.Radix.Split.{
  grow, place-grow, grow-stored, Absent-stored, stored-miss, stored-hit, stored-none, leaf-stored,
  Deeper,
}

parted :
    {ts tokens : List ℕ} (w : Parts ts tokens) (y x : ℕ) (l r : List ℕ)
    → w.right ≡ y ∷ l
    → w.left ≡ x ∷ r
    → (x == y) ≡ false
unfolding starts
parted w y x l r e e' = rw e' at (w.apart y l e)

==_swap : (x y : ℕ) → (x == y) ≡ false → (y == x) ≡ false
==_swap x y h = ground arith

Apart : List ℕ → List ℕ → Type 0
Apart l r = (y x : ℕ) (l' r' : List ℕ) → l ≡ y ∷ l' → r ≡ x ∷ r' → (x == y) ≡ false

strip-other :
    (x t : ℕ) (tokens q ts : List ℕ) {u : List ℕ}
    → (x == t) ≡ false
    → strip (x ∷ tokens) q ≡ some u
    → list_eq q (t ∷ ts) ≡ false
unfolding strip
strip-other x t tokens [] ts h e = refl
strip-other x t tokens (z ∷ q) ts h e = ground arith

-- What the tree holds at exactly the prefix `q`.
unfoldable pub held {ℓ} : {S : Type ℓ} → Radix S → List ℕ → Option (Mark S)
held r [] = visible r.root
held r (t ∷ q) = stored r.child (t ∷ q)

module _ {ℓ} {S : Type ℓ} where
  arrive :
      (t : ℕ) (ts tokens : List ℕ) (w : Parts ts tokens) (m : Mark S) (child rest : Nodes S)
      (new : Mark S)
      → place (node (t ∷ tokens) m child rest) (t ∷ ts) new
        ≡ grow (t ∷ w.prefix) w.right w.left m child rest new
  unfolding starts common
  arrive t ts tokens w m child rest new = rw w.b_eq (
      place-grow t ts (t ∷ w.prefix) w.right w.left m child rest new (==_refl t) (ap (◌∷◌ t) w.a_eq)
        (rw (==_refl t) (ap suc (rw w.b_eq at w.count))))

  beside :
      (tokens : List ℕ) (t : ℕ) (ts : List ℕ) (m : Mark S) (child rest : Nodes S) (new : Mark S)
      → starts tokens t ≡ false
      → place (node tokens m child rest) (t ∷ ts) new
        ≡ node tokens m child (place rest (t ∷ ts) new)
  unfolding place
  beside tokens t ts m child rest new h = rw (place, h) refl

  -- Insertion below a node keeps its children a trie.
  Keeps : Nodes S → Mark S → Type 0
  Keeps cs new = (x : ℕ) (r : List ℕ) → IsTrie (place cs (x ∷ r) new)

  grow-IsTrie :
      (t : ℕ) (p l r : List ℕ) (m : Mark S) (child rest : Nodes S) (new : Mark S)
      → Apart l r
      → Keeps child new
      → IsTrie child
      → Absent t rest
      → IsTrie rest
      → IsTrie (grow (t ∷ p) l r m child rest new)
  unfolding grow starts Apart Keeps
  grow-IsTrie t p [] [] m child rest new apart keeps c a w = (a, c, w)
  grow-IsTrie t p [] (x ∷ r) m child rest new apart keeps c a w = (a, keeps x r, w)
  grow-IsTrie t p (y ∷ l) [] m child rest new apart keeps c a w = (a, (tt, c, tt), w)
  grow-IsTrie t p (y ∷ l) (x ∷ r) m child rest new apart keeps c a w =
      (a, ((apart y x l r refl refl, tt), c, (tt, tt, tt)), w)

  grow-Absent :
      (t u : ℕ) (p l r : List ℕ) (m : Mark S) (child rest : Nodes S) (new : Mark S)
      → (t == u) ≡ false
      → Absent u rest
      → Absent u (grow (t ∷ p) l r m child rest new)
  unfolding grow starts
  grow-Absent t u p [] [] m child rest new h a = (h, a)
  grow-Absent t u p [] (x ∷ r) m child rest new h a = (h, a)
  grow-Absent t u p (y ∷ l) [] m child rest new h a = (h, a)
  grow-Absent t u p (y ∷ l) (x ∷ r) m child rest new h a = (h, a)

  place-Absent :
      (cs : Nodes S) (t u : ℕ) (ts : List ℕ) (new : Mark S)
      → (t == u) ≡ false
      → Absent u cs
      → Absent u (place cs (t ∷ ts) new)
  unfolding place starts
  place-Absent no_nodes t u ts new h a = (h, tt)
  place-Absent (node [] m child rest) t u ts new h a = (refl, place-Absent rest t u ts new h a.1)
  place-Absent (node (x ∷ tokens) m child rest) t u ts new h a = elim (Bool-cases (x == t)) [
    | inl e ↦
        let w = parts ts tokens in
        rw ((==_iff x t).0 e, arrive t ts tokens w m child rest new)
          (grow-Absent t u w.prefix w.right w.left m child rest new h a.1)
    | inr e ↦
        rw (beside (x ∷ tokens) t ts m child rest new e) (a.0, place-Absent rest t u ts new h a.1)
  ]

  pub place-IsTrie :
      (cs : Nodes S) (t : ℕ) (ts : List ℕ) (new : Mark S)
      → IsTrie cs
      → IsTrie (place cs (t ∷ ts) new)
  unfolding place Apart Keeps starts
  place-IsTrie no_nodes t ts new h = (tt, tt, tt)
  place-IsTrie (node [] m child rest) t ts new h = cc
  place-IsTrie (node (x ∷ tokens) m child rest) t ts new h = elim (Bool-cases (x == t)) [
    | inl e ↦
        let w = parts ts tokens in
        let same : x ≡ t = (==_iff x t).0 e in
        rw (same, arrive t ts tokens w m child rest new)
          (grow-IsTrie t w.prefix w.right w.left m child rest new (parted w)
            (λ y r. place-IsTrie child y r new h.1) h.1 (rw same at h.0) h.2)
    | inr e ↦
        rw (beside (x ∷ tokens) t ts m child rest new e)
          (place-Absent rest t x ts new (==_swap x t e) h.0, h.1, place-IsTrie rest t ts new h.2)
  ]

  place-none : (ts : List ℕ) (new : Mark S) → place no_nodes ts new ≡ node ts new no_nodes no_nodes
  unfolding place
  place-none ts new = refl

  arrive-stored :
      (t : ℕ) (ts tokens q : List ℕ) (w : Parts ts tokens) (m : Mark S) (child rest : Nodes S)
      (new : Mark S)
      → Deeper child new
      → Absent t rest
      → IsTrie rest
      → stored (place (node (t ∷ tokens) m child rest) (t ∷ ts) new) q
        ≡ (if list_eq q (t ∷ ts) then visible new else stored (node (t ∷ tokens) m child rest) q)
  arrive-stored t ts tokens q w m child rest new deeper absent trie =
      ap (λ (cs : Nodes S). stored cs q) (arrive t ts tokens w m child rest new)
      ∙ grow-stored (t ∷ w.prefix) w.right w.left q m child rest new (parted w) deeper
          (λ u. Absent-stored t rest (w.prefix ++ u) absent trie)
      ∙ ap
          (λ (a : List ℕ).
            if list_eq q (t ∷ a)
            then visible new
            else stored (node ((t ∷ w.prefix) ++ w.right) m child rest) q)
          (sym w.a_eq)
      ∙ ap
          (λ (b : List ℕ).
            if list_eq q (t ∷ ts) then visible new else stored (node (t ∷ b) m child rest) q)
          (sym w.b_eq)

  beside-stored :
      (x t : ℕ) (ts tokens q : List ℕ) (m : Mark S) (child rest : Nodes S) (new : Mark S)
      → (x == t) ≡ false
      → stored (place rest (t ∷ ts) new) q
        ≡ (if list_eq q (t ∷ ts) then visible new else stored rest q)
      → stored (node (x ∷ tokens) m child (place rest (t ∷ ts) new)) q
        ≡ (if list_eq q (t ∷ ts) then visible new else stored (node (x ∷ tokens) m child rest) q)
  beside-stored x t ts tokens q m child rest new h ih = elim (Option-cases (strip (x ∷ tokens) q)) [
    | inl e ↦
        stored-miss (x ∷ tokens) m child (place rest (t ∷ ts) new) q e
        ∙ ih
        ∙ ap (λ (o : Option (Mark S)). if list_eq q (t ∷ ts) then visible new else o)
            (sym (stored-miss (x ∷ tokens) m child rest q e))
    | inr (u, e) ↦
        rw (strip-other x t tokens q ts h e)
          (stored-hit (x ∷ tokens) m child (place rest (t ∷ ts) new) rest q e)
  ]

  -- Below the children of a node, an insertion of a prefix changes the answer at that prefix only.
  pub place-stored :
      (cs : Nodes S) (t : ℕ) (ts q : List ℕ) (new : Mark S)
      → IsTrie cs
      → stored (place cs (t ∷ ts) new) q ≡ (if list_eq q (t ∷ ts) then visible new else stored cs q)
  unfolding Deeper starts
  place-stored no_nodes t ts q new h = rw (place-none (t ∷ ts) new) (
      leaf-stored (t ∷ ts) q new
      ∙ ap (λ (o : Option (Mark S)). if list_eq q (t ∷ ts) then visible new else o)
          (sym (stored-none q)))
  place-stored (node [] m child rest) t ts q new h = cc
  place-stored (node (x ∷ tokens) m child rest) t ts q new h = elim (Bool-cases (x == t)) [
    | inl e ↦
        let same : x ≡ t = (==_iff x t).0 e in
        rw same (
          arrive-stored t ts tokens q (parts ts tokens) m child rest new
            (λ y r u. place-stored child y r u new h.1) (rw same at h.0) h.2)
    | inr e ↦
        rw (beside (x ∷ tokens) t ts m child rest new e)
          (beside-stored x t ts tokens q m child rest new e (place-stored rest t ts q new h.2))
  ]

  insert_at-held :
      (r : Radix S) (ts q : List ℕ) (new : Mark S)
      → IsTrie r.child
      → IsTrie (insert_at r ts new).child
        × (held (insert_at r ts new) q ≡ (if list_eq q ts then visible new else held r q))
  unfolding insert_at held
  insert_at-held r [] [] new h = (h, refl)
  insert_at-held r [] (z ∷ q) new h = (h, refl)
  insert_at-held r (t ∷ ts) [] new h = (place-IsTrie r.child t ts new h, refl)
  insert_at-held r (t ∷ ts) (z ∷ q) new h =
      (place-IsTrie r.child t ts new h, place-stored r.child t ts (z ∷ q) new h)

  -- An insertion into a trie of no more tokens than the sequence has succeeds: the tree is a trie
  -- again, holds
  -- the new snapshot with its marks at exactly those tokens, and holds at every other list of tokens
  -- what it held before, also where it splits an edge.
  pub radix_insert-held :
      (r : Radix S) (tokens : List ℕ) (n : ℕ) (s : S) (fp : ℕ) (tainted : Bool) (q : List ℕ)
      → IsTrie r.child
      → n ≤ length tokens
      → (r' : Radix S) × (radix_insert r tokens n s fp tainted ≡ ok r')
        × IsTrie r'.child
        × (held r' q ≡ (
            if list_eq q (take n tokens)
            then some (record { snapshot = some s; semantic_fingerprint = fp; tainted = tainted })
            else held r q))
  unfolding radix_insert visible
  radix_insert-held r tokens n s fp tainted q h lt =
      let new : Mark S = record {
        snapshot = some s;
        semantic_fingerprint = fp;
        tainted = tainted;
      } in
      let (trie, answer) = insert_at-held r (take n tokens) q new h in
      let test : leb n (length tokens) ≡ true = ground arith in
      (insert_at r (take n tokens) new, rw test refl, trie, answer)
