-- ===== src/TensorSource/Kept.antt =====
-- What an eviction, an update and a lookup keep of the entries.
use etha_jhol.Common.{
  ℕ, zero, suc, ◌≡◌, inl, inr, refl, subst, arith, ◌&&◌, some, List, [], ◌∷◌, leb, ◌==◌, ==_iff,
  length, set, get_elem?, Bool-cases, Option-cases, All,
}
use etha_jhol.TensorSource.Cache.{
  Tier, same_tier, Entry, Source, find_entry, without, remove_entry, next_victim, evict_rounds,
  evict_for,
}

module _ (P : Entry → Type 0) where
  All-without : (es : List Entry) (i : ℕ) → All P es → All P (without es i)
  All-without [] i h = tt
  All-without (e ∷ es) zero (here, rest) = rest
  All-without (e ∷ es) (suc i) (here, rest) = (here, All-without es i rest)

  pub All-set : (es : List Entry) (i : ℕ) (e : Entry) → P e → All P es → All P (set es i e)
  All-set [] i e h hs = tt
  All-set (x ∷ es) zero e h (here, rest) = (h, rest)
  All-set (x ∷ es) (suc i) e h (here, rest) = (here, All-set es i e h rest)

  pub All-get : (es : List Entry) (i : ℕ) {e : Entry} → All P es → get_elem? es i ≡ some e → P e
  All-get [] i h at = cc at
  All-get (x ∷ es) zero (here, rest) at = subst P (cc at) here
  All-get (x ∷ es) (suc i) (here, rest) at = All-get es i rest at

  remove_entry-All : (s : Source) (i : ℕ) → All P s.entries → All P (remove_entry s i).entries
  unfolding remove_entry
  remove_entry-All s i h = elim (Bool-cases (leb (length s.entries) i)) [
    | inl out ↦ rw (remove_entry, out) h
    | inr inside ↦ rw (remove_entry, inside) (All-without s.entries i h)
  ]

  evict_rounds-All :
      (fuel need : ℕ) (s : Source) → All P s.entries → All P (evict_rounds fuel need s).entries
  unfolding evict_rounds
  evict_rounds-All zero need s h = h
  evict_rounds-All (suc fuel) need s h =
      elim (Option-cases (next_victim s.cfg.host_budget_bytes need s.entries)) [
        | inl e ↦ rw (evict_rounds, e) h
        | inr (i, e) ↦
            rw (evict_rounds, e)
              (evict_rounds-All fuel need (remove_entry s i) (remove_entry-All s i h))
      ]

  pub evict_for-All : (s : Source) (need : ℕ) → All P s.entries → All P (evict_for s need).entries
  unfolding evict_for
  evict_for-All s need h = elim (Bool-cases (s.cfg.host_budget_bytes == 0)) [
    | inl off ↦ rw (evict_for, off) h
    | inr on ↦ rw (evict_for, on) (evict_rounds-All (length s.entries) need s h)
  ]

-- `find_entry` gives an entry of the tensor, in its slot.
pub find_entry-at :
    (es : List Entry) (t : ℕ) (tier : Tier) (i : ℕ) (e : Entry)
    → find_entry es t tier ≡ some (i, e)
    → (get_elem? es i ≡ some e) × (e.tensor ≡ t)
unfolding find_entry
find_entry-at [] t tier i e h = cc h
find_entry-at (x ∷ es) t tier i e h =
    let R : ℕ × Entry → Type 0 = λ (k, y). (get_elem? (x ∷ es) k ≡ some y) × (y.tensor ≡ t) in
    elim (Bool-cases ((x.tensor == t) && same_tier x.tier tier)) [
      | inl here ↦
          let same : Path (ℕ × Entry) (0, x) (i, e) = cc (rw (find_entry, here) at h) in
          subst R same (refl, (==_iff x.tensor t).0 (ground (arith, here)))
      | inr other ↦ elim (Option-cases (find_entry es t tier)) [
        | inl missing ↦ cc (rw (find_entry, other, missing) at h)
        | inr ((k, y), found) ↦
            let same : (suc k, y) ≡ (i, e) = cc (rw (find_entry, other, found) at h) in
            subst R same (find_entry-at es t tier k y found)
      ]
    ]
