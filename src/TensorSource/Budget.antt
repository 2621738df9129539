-- ===== src/TensorSource/Budget.antt =====
-- What `evict_for` leaves behind.
use etha_jhol.Common.{
  ℕ, zero, suc, ◌+◌, ◌^◌, ◌<◌, ◌≤◌, ◌≡◌, ◌⊎◌, inl, inr, refl, sym, ap, ◌∙◌, arith, Bool, true,
  false, Option, none, some, List, [], ◌∷◌, ltb, leb, ◌==◌, if◌then◌else◌, length, get_elem?, subst,
  ◌≢◌, Bool-cases, Option-cases, All,
}
use etha_jhol.Quant.{u64_max}
use etha_jhol.TensorSource.Cache.{
  Entry, Source, resident, without, remove_entry, is_older, victim_from, victim, over_budget,
  next_victim, evict_rounds, evict_for,
}

length-without : (es : List Entry) (i : ℕ) → i < length es → suc (length (without es i)) ≡ length es
length-without [] i h = absurd (omega arith)
length-without (e ∷ es) zero h = refl
length-without (e ∷ es) (suc i) h = ap suc (length-without es i (omega arith))

-- What holds of the slot that a search has found, if it has found one.
abbrev OnSome : (ℕ → Type 0) → Option ℕ → Type 0
OnSome P none = Unit
OnSome P (some i) = P i

victim_from-OnSome :
    (P : ℕ → Type 0) (i : ℕ) (es : List Entry) (best : Option ℕ × ℕ)
    → ((j : ℕ) (e : Entry) → get_elem? es j ≡ some e → e.refs ≡ 0 → P (i + j))
    → OnSome P best.0
    → OnSome P (victim_from i es best).0
unfolding victim_from
victim_from-OnSome P i [] best slot h = h
victim_from-OnSome P i (e ∷ es) best slot h =
    victim_from-OnSome P (suc i) es (if is_older e best.1 then (some i, e.age) else best)
      (λ j e' at unused. subst P (omega arith) (slot (suc j) e' at unused))
      (choose (is_older e best.1) refl)
  where
    choose : (b : Bool) → is_older e best.1 ≡ b → OnSome P (if b then (some i, e.age) else best).0
    choose true older = subst P (omega arith) (slot 0 e refl (ground (arith, older)))
    choose false older = h

-- A victim is an entry that no lease holds.
abbrev IsUnused : List Entry → ℕ → Type 0
IsUnused es i = (e : Entry) × (get_elem? es i ≡ some e) × (e.refs ≡ 0)

victim-IsUnused : (es : List Entry) → OnSome (IsUnused es) (victim es)
victim-IsUnused es =
    victim_from-OnSome (IsUnused es) 0 es (none, u64_max)
      (λ j e at unused. subst (IsUnused es) (omega arith) (e, at, unused)) tt

-- The search of a list finds a slot where one was found before.
victim_from-found :
    (i : ℕ) (es : List Entry) (best : Option ℕ × ℕ) (k : ℕ)
    → best.0 ≡ some k
    → (victim_from i es best).0 ≢ none
unfolding victim_from
victim_from-found i [] best k found missing = cc (found, missing)
victim_from-found i (e ∷ es) best k found missing = elim (Bool-cases (is_older e best.1)) [
  | inl older ↦
      victim_from-found (suc i) es (some i, e.age) i refl (rw (victim_from, older) at missing)
  | inr younger ↦ victim_from-found (suc i) es best k found (rw (victim_from, younger) at missing)
]

victim_from-none :
    (i : ℕ) (es : List Entry) (age : ℕ)
    → (victim_from i es (none, age)).0 ≡ none
    → All (λ e. is_older e age ≡ false) es
unfolding victim_from
victim_from-none i [] age h = tt
victim_from-none i (e ∷ es) age h = elim (Bool-cases (is_older e age)) [
  | inl older ↦
      absurd (victim_from-found (suc i) es (some i, e.age) i refl (rw (victim_from, older) at h))
  | inr younger ↦ (younger, victim_from-none (suc i) es age (rw (victim_from, younger) at h))
]

next_victim-IsUnused :
    (budget need : ℕ) (es : List Entry) (i : ℕ)
    → next_victim budget need es ≡ some i
    → IsUnused es i
unfolding next_victim
next_victim-IsUnused budget need es i h = elim (Bool-cases (over_budget budget need es)) [
  | inl over ↦ subst (OnSome (IsUnused es)) (rw (next_victim, over) at h) (victim-IsUnused es)
  | inr fine ↦ cc (rw (next_victim, fine) at h)
]

IsUnused-below : (es : List Entry) (i : ℕ) → IsUnused es i → i < length es
IsUnused-below [] i (e, at, unused) = cc at
IsUnused-below (x ∷ es) zero h = omega arith
IsUnused-below (x ∷ es) (suc i) h = let below = IsUnused-below es i h in omega (arith, below)

-- The entries that leases hold.
abbrev pub referenced : List Entry → List Entry
referenced [] = []
referenced (e ∷ es) = if ltb 0 e.refs then e ∷ referenced es else referenced es

referenced-without :
    (es : List Entry) (i : ℕ) → IsUnused es i → referenced (without es i) ≡ referenced es
referenced-without [] i h = refl
referenced-without (x ∷ es) zero (e, at, unused) =
    let free : x.refs ≡ 0 = cc (at, unused) in rw free refl
referenced-without (x ∷ es) (suc i) h = rw (referenced-without es i h) refl

-- One round of the loop, at the slot that it evicts.
removed :
    (s : Source) (i : ℕ)
    → IsUnused s.entries i
    → ((remove_entry s i).entries ≡ without s.entries i) × ((remove_entry s i).cfg ≡ s.cfg)
unfolding remove_entry
removed s i h =
    let inside : leb (length s.entries) i ≡ false = ground (arith, IsUnused-below s.entries i h) in
    (rw (remove_entry, inside) refl, rw (remove_entry, inside) refl)

abbrev IsDone : ℕ → ℕ → List Entry → Type 0
IsDone budget need es = next_victim budget need es ≡ none

nothing_left : (budget need : ℕ) (es : List Entry) → length es ≤ 0 → IsDone budget need es
unfolding next_victim victim_from
nothing_left budget need [] h = elim (Bool-cases (over_budget budget need [])) [
  | inl over ↦ rw (next_victim, over) refl
  | inr fine ↦ rw (next_victim, fine) refl
]
nothing_left budget need (e ∷ es) h = absurd (omega arith)

evict_rounds-IsDone :
    (fuel need : ℕ) (s : Source)
    → length s.entries ≤ fuel
    → IsDone s.cfg.host_budget_bytes need (evict_rounds fuel need s).entries
      × (referenced (evict_rounds fuel need s).entries ≡ referenced s.entries)
unfolding evict_rounds
evict_rounds-IsDone zero need s h = (nothing_left s.cfg.host_budget_bytes need s.entries h, refl)
evict_rounds-IsDone (suc fuel) need s h =
    elim (Option-cases (next_victim s.cfg.host_budget_bytes need s.entries)) [
      | inl e ↦ rw (evict_rounds, e) (e, refl)
      | inr (i, e) ↦
          let unused = next_victim-IsUnused s.cfg.host_budget_bytes need s.entries i e in
          let (left, same) = removed s i unused in
          let shorter = length-without s.entries i (IsUnused-below s.entries i unused) in
          let (done, kept) =
            evict_rounds-IsDone fuel need (remove_entry s i)
              (subst (λ es. length es ≤ fuel) (sym left) (omega (arith, shorter, h))) in
          rw (evict_rounds, e)
            (
              subst
                  (λ c.
                    IsDone c.host_budget_bytes need
                      (evict_rounds fuel need (remove_entry s i)).entries)
                  same done,
              kept ∙ ap referenced left ∙ referenced-without s.entries i unused,
            )
    ]

-- An entry that `evict_for` never takes.
abbrev pub IsHeld : Entry → Type 0
IsHeld e = (e.owns ≡ false) ⊎ (0 < e.refs) ⊎ (u64_max ≤ e.age)

held : (es : List Entry) → All (λ e. is_older e u64_max ≡ false) es → All IsHeld es
held [] h = tt
held (e ∷ es) (here, rest) = (one e.owns refl, held es rest)
  where
    one : (b : Bool) → e.owns ≡ b → IsHeld e
    one true owns = inr (ground (arith, owns, here))
    one false owns = inl owns

IsDone-fits :
    (budget need : ℕ) (es : List Entry)
    → need ≤ budget
    → budget < 2 ^ 64
    → IsDone budget need es
    → (resident es + need ≤ budget) ⊎ All IsHeld es
unfolding next_victim
IsDone-fits budget need es small word done = elim (Bool-cases (over_budget budget need es)) [
  | inl over ↦ inr (held es (victim_from-none 0 es u64_max (rw (next_victim, over) at done)))
  | inr fine ↦ inl (ground (arith, fine))
]

-- With a budget of at least the bytes asked for, `evict_for` takes no entry that a lease holds, and
-- leaves room for those bytes, unless every entry that is left is held or not owned (or has the
-- greatest age there is).
pub evict_for-room :
    (s : Source) (need : ℕ)
    → 0 < s.cfg.host_budget_bytes
    → need ≤ s.cfg.host_budget_bytes
    → s.cfg.host_budget_bytes < 2 ^ 64
    → (referenced (evict_for s need).entries ≡ referenced s.entries)
      × ((resident (evict_for s need).entries + need ≤ s.cfg.host_budget_bytes)
          ⊎ All IsHeld (evict_for s need).entries)
unfolding evict_for
evict_for-room s need some_budget small word =
    let on : (s.cfg.host_budget_bytes == 0) ≡ false = ground arith in
    let (done, kept) = evict_rounds-IsDone (length s.entries) need s (omega arith) in
    rw (evict_for, on) (kept, IsDone-fits s.cfg.host_budget_bytes need _ small word done)
