-- ===== src/Probe/Table.antt =====
-- A table of `n` slots against the list of the values inserted so far, oldest first: what a search
-- from a home can meet is what was inserted, in the order of insertion.
use etha_jhol.Common.{
  ℕ, zero, suc, ◌+◌, ◌<◌, ◌≡◌, inl, inr, refl, ◌∙◌, arith, Option, none, some, List, [], ◌∷◌, ◌++◌,
  Option-cases, Bool, true, length, length-append,
}
use etha_jhol.Probe.Insert.{write_self, write_ne, write-IsProbed, select-walk-write}
use etha_jhol.Probe.Ring.{pos, pos-lt}
use etha_jhol.Probe.Walk.{
  select, select-append, walk, first_empty, write, IsProbed, first_empty-EmptyAt,
}
use native.Mathlib.Decide.{ℕ_discrete}

module _ {ℓ} {V : Type ℓ} where
  -- The occupied slots below `m`.
  unfoldable pub count : (ℕ → Option V) → ℕ → ℕ
  count at zero = 0
  count at (suc m) = elim (at m) [ none ↦ 0 | some v ↦ 1 ] + count at m

  count-none : (at : ℕ → Option V) (m : ℕ) → ((i : ℕ) → at i ≡ none) → count at m ≡ 0
  unfolding count
  count-none at zero free = refl
  count-none at (suc m) free = rw (free m, count-none at m free)

  -- The count from the first slot on.
  pub count_shift :
      (at : ℕ → Option V) (m : ℕ)
      → count at (suc m) ≡ elim (at 0) [ none ↦ 0 | some v ↦ 1 ] + count (λ i. at (suc i)) m
  unfolding count
  count_shift at zero = refl
  count_shift at (suc m) = ground (arith, count_shift at m)

  walk-none : (n : ℕ) (at : ℕ → Option V) (fuel i : ℕ) → at i ≡ none → walk n at fuel i ≡ []
  unfolding walk
  walk-none n at zero i free = refl
  walk-none n at (suc fuel) i free = rw (free, walk)

  count_congr :
      (at at' : ℕ → Option V) (m : ℕ) → ((i : ℕ) → i < m → at' i ≡ at i) → count at' m ≡ count at m
  unfolding count
  count_congr at at' zero h = refl
  count_congr at at' (suc m) h =
      rw (h m (omega arith), count_congr at at' m (λ i k. h i (omega arith)))

  pub count-write :
      (at : ℕ → Option V) (e : ℕ) (v : V) (m : ℕ)
      → at e ≡ none
      → e < m
      → count (write at e v) m ≡ count at m + 1
  unfolding count
  count-write at e v zero free h = absurd (omega arith)
  count-write at e v (suc m) free h = elim (ℕ_discrete m e) [
    | yes p ↦
        rw
          (
            p,
            free,
            write_self at e v,
            count_congr at (write at e v) e (λ i k. write_ne at e v i (omega arith)),
          )
          (omega arith)
    | no p ↦ rw (write_ne at e v m p, count-write at e v m free (omega arith)) (omega arith)
  ]

  -- A table that is not full has an empty slot.
  pub some_empty : (at : ℕ → Option V) (m : ℕ) → count at m < m → (j : ℕ) × (j < m) × (at j ≡ none)
  unfolding count
  some_empty at zero h = absurd (omega arith)
  some_empty at (suc m) h = elim (Option-cases (at m)) [
    | inl e ↦ (m, omega arith, e)
    | inr (v, e) ↦ let (j, lt, free) = some_empty at m (ground arith) in (j, omega arith, free)
  ]

  -- The table holds the values of `vs`, inserted in that order, each at its home or behind.
  pub record Holds (n : ℕ) (home : V → ℕ) (at : ℕ → Option V) (vs : List V) : Type ℓ where
    pub probed : IsProbed n home at
    pub counted : count at n ≡ length vs
    pub found :
        (p : V → Bool) (s : ℕ)
        → s < n
        → ((u : V) → p u ≡ true → home u ≡ s)
        → select p (walk n at n s) ≡ select p vs

  module _ (n : ℕ) (home : V → ℕ) (home-lt : (v : V) → home v < n) where
    -- A new table is empty.
    pub empty-Holds : (at : ℕ → Option V) → ((i : ℕ) → at i ≡ none) → Holds n home at []
    empty-Holds at free = record {
      probed = λ v d hd found k kd. cc (free (pos n (home v) d));
      counted = count-none at n free;
      found = λ p s hs supp. rw (walk-none n at n s (free s));
    }

    -- A table with room takes one more value, at the first empty slot from its home.
    pub insert-Holds :
        (at : ℕ → Option V) (vs : List V) (v : V)
        → Holds n home at vs
        → length vs < n
        → (e : ℕ) × (first_empty n at n (home v) ≡ some e)
          × (e < n)
          × Holds n home (write at e v) (vs ++ v ∷ [])
    insert-Holds at vs v h room =
        let (j, lt, free) = some_empty at n (rw h.counted room) in
        let (d, found, empty) = first_empty-EmptyAt n at (home v) j (home-lt v) lt free in
        (
          pos n (home v) d,
          found,
          pos-lt n (home v) d (omega arith),
          record {
            probed = write-IsProbed n home at h.probed v (home-lt v) d empty home-lt;
            counted =
                count-write at (pos n (home v) d) v n empty.free (pos-lt n (home v) d (omega arith))
                ∙ rw (h.counted, length-append vs (v ∷ [])) refl;
            found = λ p s hs supp.
                select-walk-write n home at h.probed v (home-lt v) d empty p s hs supp
                ∙ rw (h.found p s hs supp, select-append p vs (v ∷ []));
          },
        )
