-- ===== src/KvCache/Radix/Lookup.antt =====
-- The lookup finds the longest prefix with a snapshot that is not tainted.
use etha_jhol.Common.{
  if◌then◌else◌, ℕ, suc, ◌<◌, ◌≡◌, ◌≢◌, ◌⊎◌, inl, inr, refl, sym, ap, ◌∙◌, Bool, true, false,
  Option, none, some, List, [], ◌∷◌, ◌++◌, arith, ◌==◌, length, ==_iff, ==_refl, Option-cases,
  Bool-cases, drop-append, append_assoc, length-append, append-nil,
}
use mathlib.Core.List.{append_cancel_left}
use etha_jhol.KvCache.Radix.{
  Mark, Nodes, no_nodes, node, Radix, common, starts, usable, better, radix_lookup,
}
use etha_jhol.KvCache.Radix.Prefix.{
  strip, strip-append, strip-some, Parts, parts, visible, stored, Absent, IsTrie,
}
use etha_jhol.KvCache.Radix.Split.{
  Absent-stored, stored-miss, stored-none, stored-end, stored-inner, stored-nil,
}
use etha_jhol.KvCache.Radix.Rounds.{
  over, find, lookup_from-over, find-deep, find-none, find-nil, find-short, find-miss,
}

-- The snapshot that a lookup may take at a node.
unfoldable pub offered {ℓ} : {S : Type ℓ} → Option (Mark S) → Option S
offered none = none
offered (some m) = if m.tainted then none else m.snapshot

not_longer : (p p' : List ℕ) → length p < length p' → p' ≢ p ++ []
not_longer p p' lt e = omega (arith, ap length (e ∙ append-nil p), lt)

-- A list that goes on behind `p` with `y` does not part from `p ++ y ∷ l` there.
not_apart :
    (pre left l u ts : List ℕ) (y : ℕ)
    → starts left y ≡ false
    → ts ≡ pre ++ left
    → ts ≢ (pre ++ y ∷ l) ++ u
unfolding starts
not_apart pre left l u ts y apart e e' =
    let same : left ≡ y ∷ (l ++ u) =
      append_cancel_left pre left (y ∷ (l ++ u)) (sym e ∙ e' ∙ append_assoc pre (y ∷ l) u) in
    cc (rw (same, ==_refl y) at apart)

module _ {ℓ} {S : Type ℓ} where
  -- What a lookup of `ts` should find in a tree: the longest prefix that offers a snapshot.
  pub data Longest (cs : Nodes S) (ts : List ℕ) : Option (ℕ × S) → Type ℓ where
    nothing : ((p q : List ℕ) → ts ≡ p ++ q → offered (stored cs p) ≡ none) → Longest cs ts none
    longest :
        (p q : List ℕ) (s : S)
        → ts ≡ p ++ q
        → offered (stored cs p) ≡ some s
        → ((p' q' : List ℕ) → ts ≡ p' ++ q' → length p < length p' → offered (stored cs p') ≡ none)
        → Longest cs ts (some (length p, s))

  offered-cases :
      (o : Option S) (fp : ℕ) (b : Bool) (m : Mark S)
      → m ≡ record { snapshot = o; semantic_fingerprint = fp; tainted = b }
      → offered (visible m) ≡ usable m
  unfolding offered visible usable
  offered-cases none fp true m e = rw e refl
  offered-cases none fp false m e = rw e refl
  offered-cases (some s) fp b m e = rw e refl

  offered-visible : (m : Mark S) → offered (visible m) ≡ usable m
  offered-visible m = offered-cases m.snapshot m.semantic_fingerprint m.tainted m refl

  -- No prefix of `ts` lies in the nodes.
  Clear : Nodes S → List ℕ → Type ℓ
  Clear cs ts = (p q : List ℕ) → ts ≡ p ++ q → stored cs p ≡ none

  Clear-nil : (cs : Nodes S) → IsTrie cs → Clear cs []
  unfolding Clear
  Clear-nil cs w [] q e = stored-nil cs w
  Clear-nil cs w (x ∷ p) q e = cc

  Clear-Absent : (cs : Nodes S) (t : ℕ) (ts : List ℕ) → Absent t cs → IsTrie cs → Clear cs (t ∷ ts)
  unfolding Clear
  Clear-Absent cs t ts a w [] q e = stored-nil cs w
  Clear-Absent cs t ts a w (x ∷ p) q e =
      let same : t ≡ x = cc e in Absent-stored x cs p (rw same at a) w

  offered-nil : (cs : Nodes S) → IsTrie cs → offered (stored cs []) ≡ none
  unfolding offered
  offered-nil cs w = ap offered (stored-nil cs w)

  -- What the node offers at a prefix of `ts`, where the nodes behind it hold none.
  offered-node :
      (tokens p q ts : List ℕ) (m : Mark S) (child rest : Nodes S)
      → Clear rest ts
      → ts ≡ p ++ q
      → (offered (stored (node tokens m child rest) p) ≡ none) ⊎ ((u : List ℕ) × (p ≡ tokens ++ u))
  unfolding Clear offered
  offered-node tokens p q ts m child rest clear e = elim (Option-cases (strip tokens p)) [
    | inl h ↦ inl (ap offered (stored-miss tokens m child rest p h ∙ clear p q e))
    | inr (u, h) ↦ inr (u, strip-some tokens p h)
  ]

  offered-end :
      (tokens : List ℕ) (m : Mark S) (child rest : Nodes S)
      → offered (stored (node tokens m child rest) (tokens ++ [])) ≡ usable m
  offered-end tokens m child rest =
      ap offered (stored-end tokens m child rest (tokens ++ []) (strip-append tokens []))
      ∙ offered-visible m

  offered-inner :
      (tokens : List ℕ) (z : ℕ) (u : List ℕ) (m : Mark S) (child rest : Nodes S)
      → offered (stored (node tokens m child rest) (tokens ++ z ∷ u))
        ≡ offered (stored child (z ∷ u))
  offered-inner tokens z u m child rest =
      ap offered
        (stored-inner tokens m child rest (tokens ++ z ∷ u) z u (strip-append tokens (z ∷ u)))

  offered_self :
      (tokens : List ℕ) (m : Mark S) (child rest : Nodes S)
      → offered (stored (node tokens m child rest) tokens) ≡ usable m
  offered_self tokens m child rest = rw (append-nil tokens) at (offered-end tokens m child rest)

  -- A prefix offers nothing at a node where it offers nothing at the node itself and below it.
  beyond :
      (p ts : List ℕ) (m : Mark S) (child rest : Nodes S) (p' q' : List ℕ)
      → Clear rest (p ++ ts)
      → p ++ ts ≡ p' ++ q'
      → (p' ≡ p ++ [] → usable m ≡ none)
      → ((z : ℕ) (u : List ℕ)
          → p' ≡ p ++ z ∷ u
          → ts ≡ (z ∷ u) ++ q'
          → offered (stored child (z ∷ u)) ≡ none)
      → offered (stored (node p m child rest) p') ≡ none
  beyond p ts m child rest p' q' clear e here below =
      elim (offered-node p p' q' (p ++ ts) m child rest clear e) [
        | inl h ↦ h
        | inr ([], h) ↦ rw h (offered-end p m child rest ∙ here h)
        | inr (z ∷ u, h) ↦ rw h (
            offered-inner p z u m child rest
            ∙ below z u h (
                append_cancel_left p ts ((z ∷ u) ++ q')
                  (e ∙ ap (λ (a : List ℕ). a ++ q') h ∙ append_assoc p (z ∷ u) q')))
      ]

  -- A lookup that passes a node with the tokens `p`.
  deep-Longest :
      (p ts : List ℕ) (m : Mark S) (child rest : Nodes S) (found : Option (ℕ × S)) (o : Option S)
      → usable m ≡ o
      → IsTrie child
      → Clear rest (p ++ ts)
      → Longest child ts found
      → Longest (node p m child rest) (p ++ ts) (over (length p) (better o (length p) none) found)
  unfolding over better
  deep-Longest p ts m child rest none none taken trie clear (nothing f) =
      nothing
        λ p' q' e. beyond p ts m child rest p' q' clear e (λ _. taken) (λ z u h e'. f (z ∷ u) q' e')
  deep-Longest p ts m child rest none (some s) taken trie clear (nothing f) =
      longest p ts s refl (offered_self p m child rest ∙ taken) λ p' q' e lt.
        beyond p ts m child rest p' q' clear e (λ h. absurd (not_longer p p' lt h))
          (λ z u h e'. f (z ∷ u) q' e')
  deep-Longest p ts m child rest (some _) o taken trie clear (longest [] q s e st f) =
      cc (offered-nil child trie, st)
  deep-Longest p ts m child rest (some _) o taken trie clear (longest (z ∷ u) q s e st f) =
      rw (sym (length-append p (z ∷ u))) (
        longest (p ++ z ∷ u) q s (ap (◌++◌ p) e ∙ sym (append_assoc p (z ∷ u) q))
          (offered-inner p z u m child rest ∙ st)
          λ p' q' e' lt.
            beyond p ts m child rest p' q' clear e'
              (λ h. absurd (not_longer p p' (omega (arith, lt, length-append p (z ∷ u))) h))
              (λ z' u' h e''. f (z' ∷ u') q' e'' (
                omega
                  (arith, lt, length-append p (z ∷ u), ap length h, length-append p (z' ∷ u')))))

  Clear-Longest : (cs : Nodes S) (ts : List ℕ) → Clear cs ts → Longest cs ts none
  unfolding Clear offered
  Clear-Longest cs ts clear = nothing λ p q e. ap offered (clear p q e)

  -- A lookup that meets a node with the first token of `ts`.
  meet-Longest :
      (t : ℕ) (pre left right : List ℕ) (m : Mark S) (child rest : Nodes S)
      → common (pre ++ left) (pre ++ right) ≡ length pre
      → ((y : ℕ) (r : List ℕ) → right ≡ y ∷ r → starts left y ≡ false)
      → IsTrie child
      → Clear rest (t ∷ pre ++ left)
      → ((d : List ℕ) → Longest child d (find child d))
      → Longest
          (node (t ∷ pre ++ right) m child rest)
          (t ∷ pre ++ left)
          (find (node (t ∷ pre ++ right) m child rest) (t ∷ pre ++ left))
  unfolding common starts
  meet-Longest t pre left [] m child rest count apart trie clear below =
      let k : common (t ∷ pre ++ left) (t ∷ pre ++ []) ≡ suc (length pre) =
        rw (==_refl t) (ap suc count) in
      let k' : common (t ∷ pre ++ left) (t ∷ pre) ≡ suc (length pre) = rw (append-nil pre) at k in
      rw
        (
          append-nil pre,
          find-deep (t ∷ pre) m child rest t (pre ++ left) (==_refl t) k'
              (λ d n b. lookup_from-over child d n b),
          drop-append pre left,
        )
        (deep-Longest (t ∷ pre) left m child rest (find child left) (usable m) refl trie clear
          (below left))
  meet-Longest t pre left (y ∷ l) m child rest count apart trie clear below =
      let k : common (t ∷ pre ++ left) (t ∷ pre ++ y ∷ l) ≡ suc (length pre) =
        rw (==_refl t) (ap suc count) in
      let differs : (common (t ∷ pre ++ left) (t ∷ pre ++ y ∷ l) == length (t ∷ pre ++ y ∷ l))
          ≡ false =
        ground (arith, k, length-append pre (y ∷ l)) in
      rw (find-short (t ∷ pre ++ y ∷ l) m child rest t (pre ++ left) (==_refl t) differs) (
        nothing λ p q e.
          elim (offered-node (t ∷ pre ++ y ∷ l) p q (t ∷ pre ++ left) m child rest clear e) [
            | inl h ↦ h
            | inr (u, h) ↦ absurd (
                not_apart (t ∷ pre) left l (u ++ q) (t ∷ pre ++ left) y (apart y l refl) refl
                  (e ∙ ap (λ (a : List ℕ). a ++ q) h ∙ append_assoc (t ∷ pre ++ y ∷ l) u q))
          ])

  -- A node with another first token holds no prefix.
  pass :
      (x t : ℕ) (tokens ts p q : List ℕ) (m : Mark S) (child rest : Nodes S)
      → (x == t) ≡ false
      → t ∷ ts ≡ p ++ q
      → stored (node (x ∷ tokens) m child rest) p ≡ stored rest p
  unfolding strip
  pass x t tokens ts [] q m child rest h e = stored-miss (x ∷ tokens) m child rest [] refl
  pass x t tokens ts (y ∷ p) q m child rest h e =
      let same : t ≡ y = cc e in
      stored-miss (x ∷ tokens) m child rest (y ∷ p) (rw (rw same at h) refl)

  miss-Longest :
      (x t : ℕ) (tokens ts : List ℕ) (m : Mark S) (child rest : Nodes S) {found : Option (ℕ × S)}
      → (x == t) ≡ false
      → Longest rest (t ∷ ts) found
      → Longest (node (x ∷ tokens) m child rest) (t ∷ ts) found
  miss-Longest x t tokens ts m child rest h (nothing f) =
      nothing λ p q e. ap offered (pass x t tokens ts p q m child rest h e) ∙ f p q e
  miss-Longest x t tokens ts m child rest h (longest p q s e st f) =
      longest p q s e (ap offered (pass x t tokens ts p q m child rest h e) ∙ st)
        λ p' q' e' lt. ap offered (pass x t tokens ts p' q' m child rest h e') ∙ f p' q' e' lt

  Parts-Longest :
      (t : ℕ) (ts tokens : List ℕ) (w : Parts ts tokens) (m : Mark S) (child rest : Nodes S)
      → IsTrie child
      → Clear rest (t ∷ ts)
      → ((d : List ℕ) → Longest child d (find child d))
      → Longest
          (node (t ∷ tokens) m child rest)
          (t ∷ ts)
          (find (node (t ∷ tokens) m child rest) (t ∷ ts))
  Parts-Longest t ts tokens w m child rest trie clear below =
      rw (w.a_eq, w.b_eq)
        (meet-Longest t w.prefix w.left w.right m child rest (rw (w.a_eq, w.b_eq) at w.count)
          w.apart trie (rw w.a_eq at clear) below)

  find-Longest : (cs : Nodes S) (ts : List ℕ) → IsTrie cs → Longest cs ts (find cs ts)
  unfolding starts Clear
  find-Longest no_nodes ts h =
      rw (find-none ts) (Clear-Longest no_nodes ts (λ p q e. stored-none p))
  find-Longest (node [] m child rest) ts h = cc
  find-Longest (node (x ∷ tokens) m child rest) [] h = rw (find-nil (x ∷ tokens) m child rest) (
      Clear-Longest (node (x ∷ tokens) m child rest) []
        (Clear-nil (node (x ∷ tokens) m child rest) h))
  find-Longest (node (x ∷ tokens) m child rest) (t ∷ ts) h = elim (Bool-cases (x == t)) [
    | inl e ↦
        let same : x ≡ t = (==_iff x t).0 e in
        rw same (
          Parts-Longest t ts tokens (parts ts tokens) m child rest h.1
            (Clear-Absent rest t ts (rw same at h.0) h.2) (λ d. find-Longest child d h.1))
    | inr e ↦
        rw (find-miss (x ∷ tokens) m child rest t ts e)
          (miss-Longest x t tokens ts m child rest e (find-Longest rest (t ∷ ts) h.2))
  ]

  -- In a trie, `vg_radix_lookup` gives the longest prefix of the tokens, of one token or more, at which the tree
  -- holds a snapshot that is not tainted, and gives nothing where no prefix has one.
  pub radix_lookup-Longest :
      (r : Radix S) (ts : List ℕ) → IsTrie r.child → Longest r.child ts (radix_lookup r ts)
  unfolding radix_lookup find
  radix_lookup-Longest r ts h = find-Longest r.child ts h
