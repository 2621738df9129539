-- ===== src/Probe/Search.antt =====
-- The search loop: it ends at the first value that passes the test or at the first empty slot.
use etha_jhol.Common.{
  ℕ, zero, suc, ◌+◌, ◌≤◌, ◌<◌, ◌≡◌, ◌≢◌, inl, inr, refl, ap, arith, Option, none, some, List, [],
  ◌∷◌, Option-cases, Bool, true, false, Bool-cases, length,
}
use etha_jhol.Probe.Ring.{pos, next, next-pos, pos-zero, distance, distance-lt, pos-distance}
use etha_jhol.Probe.Table.{Holds, some_empty}
use etha_jhol.Probe.Walk.{select, walk, first_empty, FullBelow}
use mathlib.Core.Logic.{Lift}
use native.Mathlib.Decide.{ℕ_discrete}

-- `lost` stands for a loop that has not ended after as many rounds as there are slots.
pub data Search {ℓ} (V : Type ℓ) : Type ℓ where
  lost : Search V
  missing : ℕ → Search V
  hit : ℕ → V → Search V

module _ {ℓ} {V : Type ℓ} where
  abbrev pub first : List V → Option V
  first [] = none
  first (v ∷ vs) = some v

  abbrev pub outcome : Search V → Option V
  outcome lost = none
  outcome (missing i) = none
  outcome (hit i v) = some v

  unfoldable pub search : ℕ → (ℕ → Option V) → (V → Bool) → ℕ → ℕ → Search V
  search n at p zero i = lost
  search n at p (suc fuel) i = elim (at i) [
    | none ↦ missing i
    | some v ↦ elim (p v) [ true ↦ hit i v | false ↦ search n at p fuel (next n i) ]
  ]

  -- The loop's result, for the run's values that pass and the first empty slot.
  abbrev pub Ends : (ℕ → Option V) → (V → Bool) → Option ℕ → List V → Search V → Type ℓ
  Ends at p empty vs lost = Lift ⊥
  Ends at p empty vs (missing e) = (vs ≡ []) × (empty ≡ some e)
  Ends at p empty vs (hit j v) = (first vs ≡ some v) × (at j ≡ some v) × (p v ≡ true)

  search-Ends_from :
      (n : ℕ) (at : ℕ → Option V) (p : V → Bool) (fuel s d k : ℕ)
      → s < n
      → d + fuel ≡ n
      → d ≤ k
      → k < n
      → at (pos n s k) ≡ none
      → Ends at p
          (first_empty n at fuel (pos n s d))
          (select p (walk n at fuel (pos n s d)))
          (search n at p fuel (pos n s d))
  unfolding search select walk first_empty
  search-Ends_from n at p zero s d k hs hd le hk free = absurd (omega arith)
  search-Ends_from n at p (suc fuel) s d k hs hd le hk free = elim (Option-cases (at (pos n s d))) [
    | inl e ↦ rw (e, walk, search, first_empty) (refl, refl)
    | inr (v, e) ↦ elim (Bool-cases (p v)) [
      | inl passes ↦ rw (e, walk, search, passes, first_empty, select) (refl, e, passes)
      | inr fails ↦ elim (ℕ_discrete d k) [
        | yes q ↦ absurd (cc (ap (λ (x : ℕ). at (pos n s x)) q))
        | no q ↦
            rw (e, walk, search, fails, first_empty, next-pos n s d hs (omega arith))
              (search-Ends_from n at p fuel s (d + 1) k hs (omega arith) (omega arith) hk free)
      ]
    ]
  ]

  pub search-Ends-walk :
      (n : ℕ) (at : ℕ → Option V) (p : V → Bool) (s j : ℕ)
      → s < n
      → j < n
      → at j ≡ none
      → Ends at p (first_empty n at n s) (select p (walk n at n s)) (search n at p n s)
  search-Ends-walk n at p s j hs lt free = rw (pos-zero n s hs) at (
      search-Ends_from n at p n s 0 (distance n s j) hs (omega arith) (omega arith)
        (distance-lt n s j (omega arith)) (rw (pos-distance n s j hs lt) free))

  -- In a table with room the loop ends, at the first inserted value that passes, or, where none
  -- does, at the first empty slot.
  pub search-Ends :
      (n : ℕ) (home : V → ℕ) (at : ℕ → Option V) (vs : List V) (p : V → Bool) (s : ℕ)
      → Holds n home at vs
      → length vs < n
      → s < n
      → ((u : V) → p u ≡ true → home u ≡ s)
      → Ends at p (first_empty n at n s) (select p vs) (search n at p n s)
  search-Ends n home at vs p s h room hs supp =
      let (j, lt, free) = some_empty at n (rw h.counted room) in
      rw (← h.found p s hs supp) (search-Ends-walk n at p s j hs lt free)

  walk-meets_from :
      (n : ℕ) (at : ℕ → Option V) (p : V → Bool) (fuel s k d : ℕ) (u : V)
      → s < n
      → k + fuel ≡ n
      → k ≤ d
      → d < n
      → at (pos n s d) ≡ some u
      → p u ≡ true
      → FullBelow n at s d
      → select p (walk n at fuel (pos n s k)) ≢ []
  unfolding select walk
  walk-meets_from n at p zero s k d u hs hk le hd e passes full = λ q. absurd (omega arith)
  walk-meets_from n at p (suc fuel) s k d u hs hk le hd e passes full = elim (ℕ_discrete k d) [
    | yes q ↦ rw (q, e, walk, passes) (λ r. cc)
    | no q ↦
        let rest =
          walk-meets_from n at p fuel s (k + 1) d u hs (omega arith) (omega arith) hd e passes
            full in
        elim (Option-cases (at (pos n s k))) [
          | inl free ↦ absurd (full k (omega arith) free)
          | inr (w, there) ↦
              rw (there, walk, next-pos n s k hs (omega arith)) (ground (arith, rest))
        ]
  ]

  -- The run meets every value that can be reached over occupied slots.
  pub walk-meets :
      (n : ℕ) (at : ℕ → Option V) (p : V → Bool) (s d : ℕ) (u : V)
      → s < n
      → d < n
      → at (pos n s d) ≡ some u
      → p u ≡ true
      → FullBelow n at s d
      → select p (walk n at n s) ≢ []
  walk-meets n at p s d u hs hd e passes full =
      rw (pos-zero n s hs) at
        (walk-meets_from n at p n s 0 d u hs (omega arith) (omega arith) hd e passes full)
