-- ===== src/KvCache/Radix/Split.antt =====
-- What the node that takes the place of a split edge, or of a deeper insertion, answers.
use etha_jhol.Common.{
  ℕ, suc, ◌+◌, ◌≡◌, inl, inr, refl, sym, ap, ◌∙◌, true, false, Option, none, some, List, [], ◌∷◌,
  ◌++◌, arith, ltb, ◌==◌, if◌then◌else◌, length, list_eq, take, drop, Option-cases, Bool-cases,
  append-nil, drop-append, length-append,
}
use etha_jhol.KvCache.Radix.{Mark, Nodes, no_nodes, node, common, starts, blank, split_edge, place}
use etha_jhol.KvCache.Radix.Prefix.{
  strip, strip-append, strip-some, strip-append-append, strip-append-none, list_eq-append,
  strip-none-list_eq, visible, stored, Absent, IsTrie,
}

take-prefix : (p q : List ℕ) → take (length p) (p ++ q) ≡ p
take-prefix [] q = ground arith
take-prefix (x ∷ p) q = ap (◌∷◌ x) (take-prefix p q)

strip-apart :
    (y x : ℕ) (l q r : List ℕ)
    → (x == y) ≡ false
    → list_eq q (x ∷ r) ≡ true
    → strip (y ∷ l) q ≡ none
unfolding strip
strip-apart y x l [] r h e = refl
strip-apart y x l (z ∷ q) r h e = ground arith

strip-nil : (y : ℕ) (l : List ℕ) → strip (y ∷ l) [] ≡ none
unfolding strip
strip-nil y l = refl

module _ {ℓ} {S : Type ℓ} where
  -- The node that takes the place of one with the tokens `p ++ left`, where `p ++ right` arrives.
  unfoldable pub grow : List ℕ → List ℕ → List ℕ → Mark S → Nodes S → Nodes S → Mark S → Nodes S
  grow p [] [] m child rest new = node p new child rest
  grow p (y ∷ l) [] m child rest new = node p new (node (y ∷ l) m child no_nodes) rest
  grow p [] (x ∷ r) m child rest new = node p m (place child (x ∷ r) new) rest
  grow p (y ∷ l) (x ∷ r) m child rest new =
      node p blank (node (y ∷ l) m child (node (x ∷ r) new no_nodes no_nodes)) rest

  place-cases :
      (t : ℕ) (ts p l r : List ℕ) (m : Mark S) (child rest : Nodes S) (new : Mark S)
      → starts (p ++ l) t ≡ true
      → common (t ∷ ts) (p ++ l) ≡ length p
      → drop (length p) (t ∷ ts) ≡ r
      → suc (length ts) ≡ length p + length r
      → length (p ++ l) ≡ length p + length l
      → place (node (p ++ l) m child rest) (t ∷ ts) new ≡ grow p l r m child rest new
  unfolding place split_edge grow
  place-cases t ts p [] [] m child rest new st k tail size edge =
      let full : ltb (length p) (length (p ++ [])) ≡ false = ground arith in
      let all : (length p == suc (length ts)) ≡ true = ground arith in
      rw (st, k, full, all, append-nil p) refl
  place-cases t ts p [] (x ∷ r) m child rest new st k tail size edge =
      let full : ltb (length p) (length (p ++ [])) ≡ false = ground arith in
      let all : (length p == suc (length ts)) ≡ false = ground arith in
      rw (st, k, full, all, append-nil p, tail) refl
  place-cases t ts p (y ∷ l) [] m child rest new st k tail size edge =
      let full : ltb (length p) (length (p ++ y ∷ l)) ≡ true = ground arith in
      let all : (length p == suc (length ts)) ≡ true = ground arith in
      rw (st, k, full, all, take-prefix p (y ∷ l), drop-append p (y ∷ l)) refl
  place-cases t ts p (y ∷ l) (x ∷ r) m child rest new st k tail size edge =
      let full : ltb (length p) (length (p ++ y ∷ l)) ≡ true = ground arith in
      let all : (length p == suc (length ts)) ≡ false = ground arith in
      rw (st, k, full, all, take-prefix p (y ∷ l), drop-append p (y ∷ l), tail) refl

  pub place-grow :
      (t : ℕ) (ts p l r : List ℕ) (m : Mark S) (child rest : Nodes S) (new : Mark S)
      → starts (p ++ l) t ≡ true
      → t ∷ ts ≡ p ++ r
      → common (t ∷ ts) (p ++ l) ≡ length p
      → place (node (p ++ l) m child rest) (t ∷ ts) new ≡ grow p l r m child rest new
  place-grow t ts p l r m child rest new st e k =
      place-cases t ts p l r m child rest new st k (ap (drop (length p)) e ∙ drop-append p r)
        (ap length e ∙ length-append p r) (length-append p l)

  pub Absent-stored :
      (t : ℕ) (cs : Nodes S) (q : List ℕ) → Absent t cs → IsTrie cs → stored cs (t ∷ q) ≡ none
  unfolding stored strip starts
  Absent-stored t no_nodes q h w = refl
  Absent-stored t (node [] m child rest) q h w = cc
  Absent-stored t (node (x ∷ tokens) m child rest) q h w =
      ground (arith, Absent-stored t rest q h.1 w.2)

  pub stored-nil : (cs : Nodes S) → IsTrie cs → stored cs [] ≡ none
  unfolding stored strip
  stored-nil no_nodes w = refl
  stored-nil (node [] m child rest) w = cc
  stored-nil (node (x ∷ tokens) m child rest) w = stored-nil rest w.2

  pub stored-none : (q : List ℕ) → ◌≡◌ {A = Option (Mark S)} (stored no_nodes q) none
  unfolding stored
  stored-none q = refl

  pub stored-miss :
      (tokens : List ℕ) (m : Mark S) (child rest : Nodes S) (q : List ℕ)
      → strip tokens q ≡ none
      → stored (node tokens m child rest) q ≡ stored rest q
  unfolding stored
  stored-miss tokens m child rest q h = rw (stored, h) refl

  pub stored-end :
      (tokens : List ℕ) (m : Mark S) (child rest : Nodes S) (q : List ℕ)
      → strip tokens q ≡ some []
      → stored (node tokens m child rest) q ≡ visible m
  unfolding stored
  stored-end tokens m child rest q h = rw (stored, h) refl

  pub stored-inner :
      (tokens : List ℕ) (m : Mark S) (child rest : Nodes S) (q : List ℕ) (z : ℕ) (u : List ℕ)
      → strip tokens q ≡ some (z ∷ u)
      → stored (node tokens m child rest) q ≡ stored child (z ∷ u)
  unfolding stored
  stored-inner tokens m child rest q z u h = rw (stored, h) refl

  -- A node that answers by itself answers alike whatever stands behind it.
  pub stored-hit :
      (tokens : List ℕ) (m : Mark S) (child rest rest' : Nodes S) (q : List ℕ) {u : List ℕ}
      → strip tokens q ≡ some u
      → stored (node tokens m child rest) q ≡ stored (node tokens m child rest') q
  unfolding stored
  stored-hit tokens m child rest rest' q h = rw (stored, h) refl

  -- Two nodes that differ in the nodes behind them answer alike where those do.
  stored-rest :
      (tokens : List ℕ) (m : Mark S) (child rest rest' : Nodes S) (q : List ℕ)
      → stored rest q ≡ stored rest' q
      → stored (node tokens m child rest) q ≡ stored (node tokens m child rest') q
  unfolding stored
  stored-rest tokens m child rest rest' q h = elim (Option-cases (strip tokens q)) [
    | inl e ↦ rw (stored, e) h
    | inr (u, e) ↦ rw (stored, e) refl
  ]

  -- Behind the common prefix, the old node answers as one with the rest of its tokens.
  old-under :
      (p l q : List ℕ) (m : Mark S) (child rest : Nodes S)
      → stored rest (p ++ q) ≡ none
      → stored (node (p ++ l) m child rest) (p ++ q) ≡ stored (node l m child no_nodes) q
  old-under p l q m child rest miss =
      let same = strip-append-append p l q in
      elim (Option-cases (strip l q)) [
        | inl e ↦
            stored-miss (p ++ l) m child rest (p ++ q) (same ∙ e)
            ∙ miss
            ∙ sym (stored-none q)
            ∙ sym (stored-miss l m child no_nodes q e)
        | inr ([], e) ↦
            stored-end (p ++ l) m child rest (p ++ q) (same ∙ e)
            ∙ sym (stored-end l m child no_nodes q e)
        | inr (z ∷ u, e) ↦
            stored-inner (p ++ l) m child rest (p ++ q) z u (same ∙ e)
            ∙ sym (stored-inner l m child no_nodes q z u e)
      ]

  pub leaf-stored :
      (ts q : List ℕ) (new : Mark S)
      → stored (node ts new no_nodes no_nodes) q ≡ (if list_eq q ts then visible new else none)
  unfolding stored strip
  leaf-stored [] [] new = refl
  leaf-stored [] (z ∷ q) new = refl
  leaf-stored (x ∷ ts) [] new = refl
  leaf-stored (x ∷ ts) (z ∷ q) new = ground (arith, leaf-stored ts q new)

  -- What a tree with two edges behind a split holds.
  fork-stored :
      (y x : ℕ) (l r q : List ℕ) (m : Mark S) (child : Nodes S) (new : Mark S)
      → (x == y) ≡ false
      → stored (node (y ∷ l) m child (node (x ∷ r) new no_nodes no_nodes)) q
        ≡ (if list_eq q (x ∷ r) then visible new else stored (node (y ∷ l) m child no_nodes) q)
  fork-stored y x l r q m child new h = elim (Bool-cases (list_eq q (x ∷ r))) [
    | inl e ↦ rw e (
        stored-miss (y ∷ l) m child (node (x ∷ r) new no_nodes no_nodes) q
          (strip-apart y x l q r h e)
        ∙ leaf-stored (x ∷ r) q new
        ∙ rw e refl)
    | inr e ↦ rw e (
        stored-rest (y ∷ l) m child (node (x ∷ r) new no_nodes no_nodes) no_nodes q
          (leaf-stored (x ∷ r) q new ∙ rw e (sym (stored-none q))))
  ]

  visible-blank : visible (blank {S = S}) ≡ none
  unfolding visible
  visible-blank = refl

  -- What arrives below the common prefix of the node that takes the place of the old one.
  unfoldable pub Deeper : Nodes S → Mark S → Type ℓ
  Deeper child new =
      (x : ℕ) (r q : List ℕ)
      → stored (place child (x ∷ r) new) q
        ≡ (if list_eq q (x ∷ r) then visible new else stored child q)

  grow-under :
      (p l r q : List ℕ) (m : Mark S) (child rest : Nodes S) (new : Mark S)
      → ((y x : ℕ) (l' r' : List ℕ) → l ≡ y ∷ l' → r ≡ x ∷ r' → (x == y) ≡ false)
      → Deeper child new
      → stored (grow p l r m child rest new) (p ++ q)
        ≡ (if list_eq q r then visible new else stored (node l m child no_nodes) q)
  unfolding grow Deeper
  grow-under p [] [] [] m child rest new apart deeper =
      stored-end p new child rest _ (strip-append p [])
  grow-under p [] [] (z ∷ q) m child rest new apart deeper =
      stored-inner p new child rest _ z q (strip-append p (z ∷ q))
      ∙ sym (stored-inner [] m child no_nodes (z ∷ q) z q (strip-append [] (z ∷ q)))
  grow-under p [] (x ∷ r) [] m child rest new apart deeper =
      stored-end p m (place child (x ∷ r) new) rest _ (strip-append p [])
      ∙ sym (stored-end [] m child no_nodes [] (strip-append [] []))
  grow-under p [] (x ∷ r) (z ∷ q) m child rest new apart deeper =
      stored-inner p m (place child (x ∷ r) new) rest _ z q (strip-append p (z ∷ q))
      ∙ deeper x r (z ∷ q)
      ∙ ap (λ (o : Option (Mark S)). if list_eq (z ∷ q) (x ∷ r) then visible new else o)
          (sym (stored-inner [] m child no_nodes (z ∷ q) z q (strip-append [] (z ∷ q))))
  grow-under p (y ∷ l) [] [] m child rest new apart deeper =
      stored-end p new (node (y ∷ l) m child no_nodes) rest _ (strip-append p [])
  grow-under p (y ∷ l) [] (z ∷ q) m child rest new apart deeper =
      stored-inner p new (node (y ∷ l) m child no_nodes) rest _ z q (strip-append p (z ∷ q))
  grow-under p (y ∷ l) (x ∷ r) [] m child rest new apart deeper =
      stored-end p blank _ rest _ (strip-append p [])
      ∙ visible-blank
      ∙ sym (stored-none [])
      ∙ sym (stored-miss (y ∷ l) m child no_nodes [] (strip-nil y l))
  grow-under p (y ∷ l) (x ∷ r) (z ∷ q) m child rest new apart deeper =
      stored-inner p blank _ rest _ z q (strip-append p (z ∷ q))
      ∙ fork-stored y x l r (z ∷ q) m child new (apart y x l r refl refl)

  grow-miss :
      (p l r q : List ℕ) (m : Mark S) (child rest : Nodes S) (new : Mark S)
      → strip p q ≡ none
      → stored (grow p l r m child rest new) q ≡ stored rest q
  unfolding grow
  grow-miss p [] [] q m child rest new h = stored-miss p _ _ rest q h
  grow-miss p [] (x ∷ r) q m child rest new h = stored-miss p _ _ rest q h
  grow-miss p (y ∷ l) [] q m child rest new h = stored-miss p _ _ rest q h
  grow-miss p (y ∷ l) (x ∷ r) q m child rest new h = stored-miss p _ _ rest q h

  pub grow-stored :
      (p l r q : List ℕ) (m : Mark S) (child rest : Nodes S) (new : Mark S)
      → ((y x : ℕ) (l' r' : List ℕ) → l ≡ y ∷ l' → r ≡ x ∷ r' → (x == y) ≡ false)
      → Deeper child new
      → ((u : List ℕ) → stored rest (p ++ u) ≡ none)
      → stored (grow p l r m child rest new) q
        ≡ (if list_eq q (p ++ r) then visible new else stored (node (p ++ l) m child rest) q)
  grow-stored p l r q m child rest new apart deeper miss = elim (Option-cases (strip p q)) [
    | inl e ↦ rw (strip-none-list_eq p q r e) (
        grow-miss p l r q m child rest new e
        ∙ sym (stored-miss (p ++ l) m child rest q (strip-append-none p l q e)))
    | inr (u, e) ↦
        rw (strip-some p q e, list_eq-append p u r, old-under p l u m child rest (miss u))
          (grow-under p l r u m child rest new apart deeper)
  ]
