-- ===== src/KvCache/Radix/Rounds.antt =====
-- The rounds of the lookup's loop, and what the loop finds without a position and a best so far.
use etha_jhol.Common.{
  ℕ, ◌+◌, ◌≡◌, inl, inr, refl, sym, ap, ◌∙◌, true, false, Option, none, some, List, [], ◌∷◌, arith,
  ◌==◌, length, ==_iff, ==_refl, drop, Bool-cases,
}
use etha_jhol.KvCache.Radix.{
  Mark, Nodes, no_nodes, node, common, starts, usable, better, lookup_from,
}

module _ {ℓ} {S : Type ℓ} where
  -- The result `found` below a node at `pos` matched tokens, over the best so far.
  unfoldable pub over : ℕ → Option (ℕ × S) → Option (ℕ × S) → Option (ℕ × S)
  over pos best none = best
  over pos best (some (n, s)) = some (pos + n, s)

  -- The lookup with no position and no best so far.
  unfoldable pub find : Nodes S → List ℕ → Option (ℕ × S)
  find cs ts = lookup_from cs ts 0 none

  pub over-over :
      (pos k : ℕ) (best found : Option (ℕ × S)) (o : Option S)
      → over (pos + k) (better o (pos + k) best) found
        ≡ over pos best (over k (better o k none) found)
  unfolding over better
  over-over pos k best none none = refl
  over-over pos k best none (some s) = refl
  over-over pos k best (some (n, s)) o = ap (λ (x : ℕ). some (x, s)) (omega arith)

  pub miss_round :
      (tokens : List ℕ) (m : Mark S) (child rest : Nodes S) (t : ℕ) (ts : List ℕ) (pos : ℕ)
      (best : Option (ℕ × S))
      → starts tokens t ≡ false
      → lookup_from (node tokens m child rest) (t ∷ ts) pos best
        ≡ lookup_from rest (t ∷ ts) pos best
  unfolding lookup_from
  miss_round tokens m child rest t ts pos best h = rw (lookup_from, h) refl

  pub short_round :
      (tokens : List ℕ) (m : Mark S) (child rest : Nodes S) (t : ℕ) (ts : List ℕ) (pos : ℕ)
      (best : Option (ℕ × S))
      → starts tokens t ≡ true
      → (common (t ∷ ts) tokens == length tokens) ≡ false
      → lookup_from (node tokens m child rest) (t ∷ ts) pos best ≡ best
  unfolding lookup_from
  short_round tokens m child rest t ts pos best h k = rw (lookup_from, h, k) refl

  pub deep_round :
      (tokens : List ℕ) (m : Mark S) (child rest : Nodes S) (t : ℕ) (ts : List ℕ) (pos : ℕ)
      (best : Option (ℕ × S))
      → starts tokens t ≡ true
      → common (t ∷ ts) tokens ≡ length tokens
      → lookup_from (node tokens m child rest) (t ∷ ts) pos best
        ≡ lookup_from child
            (drop (length tokens) (t ∷ ts))
            (pos + length tokens)
            (better (usable m) (pos + length tokens) best)
  unfolding lookup_from
  deep_round tokens m child rest t ts pos best h k =
      rw (lookup_from, h, k, ==_refl (length tokens)) refl

  pub lookup-none :
      (ts : List ℕ) (pos : ℕ) (best : Option (ℕ × S)) → lookup_from no_nodes ts pos best ≡ best
  unfolding lookup_from
  lookup-none ts pos best = refl

  pub lookup-nil :
      (tokens : List ℕ) (m : Mark S) (child rest : Nodes S) (pos : ℕ) (best : Option (ℕ × S))
      → lookup_from (node tokens m child rest) [] pos best ≡ best
  unfolding lookup_from
  lookup-nil tokens m child rest pos best = refl

  -- A result below a child, seen from its parent.
  pub find-deep :
      (tokens : List ℕ) (m : Mark S) (child rest : Nodes S) (t : ℕ) (ts : List ℕ)
      → starts tokens t ≡ true
      → common (t ∷ ts) tokens ≡ length tokens
      → ((d : List ℕ) (pos : ℕ) (best : Option (ℕ × S))
          → lookup_from child d pos best ≡ over pos best (find child d))
      → find (node tokens m child rest) (t ∷ ts)
        ≡ over
            (length tokens)
            (better (usable m) (length tokens) none)
            (find child (drop (length tokens) (t ∷ ts)))
  unfolding find
  find-deep tokens m child rest t ts h k below =
      let start : 0 + length tokens ≡ length tokens = omega arith in
      deep_round tokens m child rest t ts 0 none h k
      ∙ rw start (
          below (drop (length tokens) (t ∷ ts)) (length tokens)
            (better (usable m) (length tokens) none))

  -- The position and the best so far do not change what the loop finds.
  pub lookup_from-over :
      (cs : Nodes S) (ts : List ℕ) (pos : ℕ) (best : Option (ℕ × S))
      → lookup_from cs ts pos best ≡ over pos best (find cs ts)
  unfolding over find
  lookup_from-over no_nodes ts pos best = rw (lookup-none ts 0 none) (lookup-none ts pos best)
  lookup_from-over (node tokens m child rest) [] pos best =
      rw (lookup-nil tokens m child rest 0 none) (lookup-nil tokens m child rest pos best)
  lookup_from-over (node tokens m child rest) (t ∷ ts) pos best =
      elim (Bool-cases (starts tokens t)) [
        | inr h ↦ rw (miss_round tokens m child rest t ts 0 none h) (
            miss_round tokens m child rest t ts pos best h
            ∙ lookup_from-over rest (t ∷ ts) pos best)
        | inl h ↦ elim (Bool-cases (common (t ∷ ts) tokens == length tokens)) [
          | inr k ↦
              rw (short_round tokens m child rest t ts 0 none h k)
                (short_round tokens m child rest t ts pos best h k)
          | inl k ↦
              let full = (==_iff (common (t ∷ ts) tokens) (length tokens)).0 k in
              let below =
                λ (d : List ℕ) (n : ℕ) (b : Option (ℕ × S)). lookup_from-over child d n b in
              deep_round tokens m child rest t ts pos best h full
              ∙ below (drop (length tokens) (t ∷ ts)) (pos + length tokens)
                  (better (usable m) (pos + length tokens) best)
              ∙ over-over pos (length tokens) best (find child (drop (length tokens) (t ∷ ts)))
                  (usable m)
              ∙ ap (over pos best) (sym (find-deep tokens m child rest t ts h full below))
        ]
      ]

  pub find-none : (ts : List ℕ) → ◌≡◌ {A = Option (ℕ × S)} (find no_nodes ts) none
  unfolding find
  find-none ts = lookup-none ts 0 none

  pub find-nil :
      (tokens : List ℕ) (m : Mark S) (child rest : Nodes S)
      → find (node tokens m child rest) [] ≡ none
  unfolding find
  find-nil tokens m child rest = lookup-nil tokens m child rest 0 none

  pub find-short :
      (tokens : List ℕ) (m : Mark S) (child rest : Nodes S) (t : ℕ) (ts : List ℕ)
      → starts tokens t ≡ true
      → (common (t ∷ ts) tokens == length tokens) ≡ false
      → find (node tokens m child rest) (t ∷ ts) ≡ none
  unfolding find
  find-short tokens m child rest t ts h k = short_round tokens m child rest t ts 0 none h k

  pub find-miss :
      (tokens : List ℕ) (m : Mark S) (child rest : Nodes S) (t : ℕ) (ts : List ℕ)
      → starts tokens t ≡ false
      → find (node tokens m child rest) (t ∷ ts) ≡ find rest (t ∷ ts)
  unfolding find
  find-miss tokens m child rest t ts h = miss_round tokens m child rest t ts 0 none h
