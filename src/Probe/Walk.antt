-- ===== src/Probe/Walk.antt =====
-- The run of occupied slots from a position, and the first empty slot behind it.
use etha_jhol.Common.{
  ℕ, zero, suc, ◌+◌, ◌≤◌, ◌<◌, ◌≡◌, ◌≢◌, inl, inr, refl, ap, arith, Option, none, some, List, [],
  ◌∷◌, ◌++◌, Option-cases, ◌==◌, if◌then◌else◌, Bool,
}
use etha_jhol.Probe.Ring.{pos, next, next-pos, pos-zero, distance, distance-lt, pos-distance}
use native.Mathlib.Decide.{ℕ_discrete}

-- Keeps the values that pass the test, in order.
unfoldable pub select {ℓ} : {V : Type ℓ} → (V → Bool) → List V → List V
select p [] = []
select p (v ∷ vs) = if p v then v ∷ select p vs else select p vs

pub select-append {ℓ} :
    {V : Type ℓ} (p : V → Bool) (xs ys : List V) → select p (xs ++ ys) ≡ select p xs ++ select p ys
unfolding select
select-append p [] ys = refl
select-append p (x ∷ xs) ys = ground (arith, select-append p xs ys)

module _ {ℓ} {V : Type ℓ} where
  -- The values from `i` on, up to the first empty slot.
  unfoldable pub walk : ℕ → (ℕ → Option V) → ℕ → ℕ → List V
  walk n at zero i = []
  walk n at (suc fuel) i = elim (at i) [ none ↦ [] | some v ↦ v ∷ walk n at fuel (next n i) ]

  -- The first empty slot from `i` on.
  unfoldable pub first_empty : ℕ → (ℕ → Option V) → ℕ → ℕ → Option ℕ
  first_empty n at zero i = none
  first_empty n at (suc fuel) i = elim (at i) [
    | none ↦ some i
    | some v ↦ first_empty n at fuel (next n i)
  ]

  unfoldable pub write : (ℕ → Option V) → ℕ → V → ℕ → Option V
  write at e v i = if i == e then some v else at i

  -- The slots at a distance below `d` from `s` are occupied.
  abbrev pub FullBelow : ℕ → (ℕ → Option V) → ℕ → ℕ → Type ℓ
  FullBelow n at s d = (k : ℕ) → k < d → at (pos n s k) ≢ none

  -- The first empty slot from `s` on is `d` steps behind it.
  pub record EmptyAt (n : ℕ) (at : ℕ → Option V) (s d : ℕ) : Type ℓ where
    pub below : d < n
    pub free : at (pos n s d) ≡ none
    pub full : FullBelow n at s d

  -- Between its home and each value every slot is occupied.
  abbrev pub IsProbed : ℕ → (V → ℕ) → (ℕ → Option V) → Type ℓ
  IsProbed n home at =
      (v : V) (d : ℕ) → d < n → at (pos n (home v) d) ≡ some v → FullBelow n at (home v) d

  pub FullBelow-suc :
      (n : ℕ) (at : ℕ → Option V) (s d : ℕ) {v : V}
      → FullBelow n at s d
      → at (pos n s d) ≡ some v
      → FullBelow n at s (d + 1)
  FullBelow-suc n at s d full e k h = elim (ℕ_discrete k d) [
    | yes p ↦ λ q. cc
    | no p ↦ full k (omega arith)
  ]

  first_empty-from :
      (n : ℕ) (at : ℕ → Option V) (fuel s d k : ℕ)
      → s < n
      → d + fuel ≡ n
      → FullBelow n at s d
      → d ≤ k
      → k < n
      → at (pos n s k) ≡ none
      → (e : ℕ) × (first_empty n at fuel (pos n s d) ≡ some (pos n s e)) × EmptyAt n at s e
  unfolding first_empty
  first_empty-from n at zero s d k hs hd full le hk free = absurd (omega arith)
  first_empty-from n at (suc fuel) s d k hs hd full le hk free =
      elim (Option-cases (at (pos n s d))) [
        | inl e ↦ (d, rw (e, first_empty), record { below = omega arith; free = e; full = full })
        | inr (v, e) ↦ elim (ℕ_discrete d k) [
          | yes p ↦ absurd (cc (ap (λ (x : ℕ). at (pos n s x)) p))
          | no p ↦
              let (r, found, empty) =
                first_empty-from n at fuel s (d + 1) k hs (omega arith)
                  (FullBelow-suc n at s d full e) (omega arith) hk free in
              (r, rw (e, first_empty, next-pos n s d hs (omega arith)) found, empty)
        ]
      ]

  -- An empty slot anywhere is found, whatever the start.
  pub first_empty-EmptyAt :
      (n : ℕ) (at : ℕ → Option V) (s j : ℕ)
      → s < n
      → j < n
      → at j ≡ none
      → (e : ℕ) × (first_empty n at n s ≡ some (pos n s e)) × EmptyAt n at s e
  first_empty-EmptyAt n at s j hs hj free =
      let (e, found, empty) =
        first_empty-from n at n s 0 (distance n s j) hs (omega arith) (λ k h. absurd (omega arith))
          (omega arith) (distance-lt n s j (omega arith)) (rw (pos-distance n s j hs hj) free) in
      (e, rw (pos-zero n s hs) at found, empty)
