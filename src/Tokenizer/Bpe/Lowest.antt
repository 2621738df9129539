-- ===== src/Tokenizer/Bpe/Lowest.antt =====
-- The pair that `bpe_word_apply` merges has the lowest rank.
use etha_jhol.Common.{
  ℕ, zero, suc, ◌+◌, ◌≤◌, ◌≡◌, ◌⊎◌, refl, inl, inr, arith, Option, none, some, List, [], ◌∷◌, ltb,
  Bool-cases,
}
use etha_jhol.Tokenizer.Bpe.{better_pair, best_pair}

-- A pair that replaces the best so far is itself, and one that does not leaves it.
better-source :
    (o : Option ℕ) (i : ℕ) (best : Option (ℕ × ℕ)) {r k : ℕ}
    → better_pair o i best ≡ some (r, k)
    → (best ≡ some (r, k)) ⊎ ((o ≡ some r) × (k ≡ i))
unfolding better_pair
better-source none i best h = inl h
better-source (some r') i none h = inr (cc h, cc h)
better-source (some r') i (some (r'', k'')) h = elim (Bool-cases (ltb r' r'')) [
  | inl e ↦
      let same : ◌≡◌ {A = Option (ℕ × ℕ)} (some (r', i)) (some (_, _)) = rw e at h in
      inr (cc same, cc same)
  | inr e ↦ inl (rw e at h)
]

-- The best so far is not above the pair, nor above the best before.
better-below :
    (r' i : ℕ) (best : Option (ℕ × ℕ))
    → (r k : ℕ) × (better_pair (some r') i best ≡ some (r, k)) × (r ≤ r')
unfolding better_pair
better-below r' i none = (r', i, refl, omega arith)
better-below r' i (some (r'', k'')) = elim (Bool-cases (ltb r' r'')) [
  | inl e ↦ (r', i, rw e refl, omega arith)
  | inr e ↦ (r'', k'', rw e refl, ground arith)
]

better-keeps :
    (o : Option ℕ) (i r₀ k₀ : ℕ)
    → (r k : ℕ) × (better_pair o i (some (r₀, k₀)) ≡ some (r, k)) × (r ≤ r₀)
unfolding better_pair
better-keeps none i r₀ k₀ = (r₀, k₀, refl, omega arith)
better-keeps (some r') i r₀ k₀ = elim (Bool-cases (ltb r' r₀)) [
  | inl e ↦ (r', i, rw e refl, ground arith)
  | inr e ↦ (r₀, k₀, rw e refl, omega arith)
]

module _ (rank : List ℕ → List ℕ → Option ℕ) where
  -- The rank of the rule for the pieces at `k` and `k + 1`, if there is one.
  unfoldable pub rank_at : ℕ → List (List ℕ) → Option ℕ
  rank_at k [] = none
  rank_at k (a ∷ []) = none
  rank_at zero (a ∷ b ∷ rest) = rank a b
  rank_at (suc k) (a ∷ b ∷ rest) = rank_at k (b ∷ rest)

  best_pair-below :
      (i : ℕ) (ps : List (List ℕ)) (r₀ k₀ : ℕ) {r k : ℕ}
      → best_pair rank i ps (some (r₀, k₀)) ≡ some (r, k)
      → r ≤ r₀
  unfolding best_pair
  best_pair-below i [] r₀ k₀ h = ground arith
  best_pair-below i (a ∷ []) r₀ k₀ h = ground arith
  best_pair-below i (a ∷ b ∷ rest) r₀ k₀ {r} {k} h =
      let (r₁, k₁, e, le) = better-keeps (rank a b) i r₀ k₀ in
      omega (arith, le, best_pair-below (i + 1) (b ∷ rest) r₁ k₁ {r = r} {k = k} (rw e at h))

  best_pair-all :
      (i : ℕ) (ps : List (List ℕ)) (best : Option (ℕ × ℕ)) (j : ℕ) {r' r k : ℕ}
      → rank_at j ps ≡ some r'
      → best_pair rank i ps best ≡ some (r, k)
      → r ≤ r'
  unfolding best_pair rank_at
  best_pair-all i [] best j e h = cc
  best_pair-all i (a ∷ []) best j e h = cc
  best_pair-all i (a ∷ b ∷ rest) best zero {r'} {r} {k} e h =
      let (r₁, k₁, e₁, le) = better-below r' i best in
      omega (arith, le, best_pair-below (i + 1) (b ∷ rest) r₁ k₁ {r = r} {k = k} (rw (e, e₁) at h))
  best_pair-all i (a ∷ b ∷ rest) best (suc j) e h =
      best_pair-all (i + 1) (b ∷ rest) (better_pair (rank a b) i best) j e h

  pub best_pair-source :
      (i : ℕ) (ps : List (List ℕ)) (best : Option (ℕ × ℕ)) {r k : ℕ}
      → best_pair rank i ps best ≡ some (r, k)
      → (best ≡ some (r, k)) ⊎ ((d : ℕ) × (k ≡ i + d) × (rank_at d ps ≡ some r))
  unfolding best_pair rank_at
  best_pair-source i [] best h = inl h
  best_pair-source i (a ∷ []) best h = inl h
  best_pair-source i (a ∷ b ∷ rest) best h =
      elim (best_pair-source (i + 1) (b ∷ rest) (better_pair (rank a b) i best) h) [
        | inr (d, e, at) ↦ inr (suc d, omega (arith, e), at)
        | inl e ↦ elim (better-source (rank a b) i best e) [
          | inl before ↦ inl before
          | inr (here, same) ↦ inr (0, omega (arith, same), here)
        ]
      ]

  -- The pair that a round of the loop merges has a rule of the rank that it is chosen for, and where
  -- any pair has a rule, that rule has no lower rank.
  pub best_pair-lowest :
      (ps : List (List ℕ)) (r k j r' : ℕ)
      → best_pair rank 0 ps none ≡ some (r, k)
      → rank_at j ps ≡ some r'
      → (rank_at k ps ≡ some r) × (r ≤ r')
  best_pair-lowest ps r k j r' h e = elim (best_pair-source 0 ps none h) [
    | inl q ↦ cc q
    | inr (d, same, there) ↦
        let eq : k ≡ d = omega (arith, same) in
        (rw eq there, best_pair-all 0 ps none j {r' = r'} {r = r} {k = k} e h)
  ]
