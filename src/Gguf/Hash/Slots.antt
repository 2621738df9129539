-- ===== src/Gguf/Hash/Slots.antt =====
-- What a table holds, and how a search and a write read on that.
use etha_jhol.Common.{
  ℕ, zero, suc, ◌%◌, ◌<◌, ◌≡◌, ◌≢◌, refl, ◌∙◌, ap, arith, ◌⊎◌, inl, inr, Option, none, some, List,
  [], ◌∷◌, list_eq→eq, list_eq_refl, length, set,
}
use etha_jhol.Gguf.Hash.{Entry, Table, fnv1a, at, has_key, hash_find, occupied}
use etha_jhol.Probe.Ring.{pos, distance, distance-lt, pos-distance}
use etha_jhol.Probe.Search.{Search, lost, missing, hit, search, Ends, search-Ends-walk, walk-meets}
use etha_jhol.Probe.Table.{count, count_shift, some_empty}
use etha_jhol.Probe.Walk.{write, IsProbed, EmptyAt, first_empty, first_empty-EmptyAt, select, walk}
use mathlib.Core.Path.{fun_ext}

at-set-at :
    (slots : List (Option Entry)) (i : ℕ) (e : Entry)
    → i < length slots
    → (j : ℕ) → at (set slots i (some e)) j ≡ write (at slots) i e j
unfolding write
at-set-at [] i e h j = absurd (omega arith)
at-set-at (s ∷ slots) zero e h zero = refl
at-set-at (s ∷ slots) zero e h (suc j) = ground arith
at-set-at (s ∷ slots) (suc i) e h zero = ground arith
at-set-at (s ∷ slots) (suc i) e h (suc j) = ground (arith, at-set-at slots i e (omega arith) j)

-- A write to the list is a write to what is read.
pub at-set :
    (slots : List (Option Entry)) (i : ℕ) (e : Entry)
    → i < length slots
    → at (set slots i (some e)) ≡ write (at slots) i e
at-set slots i e h = fun_ext (at-set-at slots i e h)

pub count-occupied :
    (slots : List (Option Entry)) → count (at slots) (length slots) ≡ occupied slots
unfolding occupied count
count-occupied [] = refl
count-occupied (none ∷ slots) =
    count_shift (at (none ∷ slots)) (length slots) ∙ omega (arith, count-occupied slots)
count-occupied (some e ∷ slots) =
    count_shift (at (some e ∷ slots)) (length slots) ∙ omega (arith, count-occupied slots)

-- Where the search for the entry begins.
abbrev pub home : ℕ → Entry → ℕ
home cap e = fnv1a e.key % cap

-- The table holds the entry.
abbrev pub Stored : Table → Entry → Type 0
Stored t e = (j : ℕ) × (j < t.cap) × (at t.slots j ≡ some e)

-- No two slots hold one key.
abbrev pub IsDistinct : (ℕ → Option Entry) → Type 0
IsDistinct f = (i j : ℕ) (u v : Entry) → f i ≡ some u → f j ≡ some v → u.key ≡ v.key → i ≡ j

-- Each entry is reached from its home over occupied slots, and no two have one key.
pub record IsTable (t : Table) : Type 0 where
  pub width : length t.slots ≡ t.cap
  pub wide : 0 < t.cap
  pub probed : IsProbed t.cap (home t.cap) (at t.slots)
  pub distinct : IsDistinct (at t.slots)

in-range :
    (slots : List (Option Entry)) (j : ℕ) {u : Entry} → at slots j ≡ some u → j < length slots
in-range [] j h = cc
in-range (s ∷ slots) zero h = omega arith
in-range (s ∷ slots) (suc j) h = omega (arith, in-range slots j h)

pub Stored-at : (t : Table) → IsTable t → (j : ℕ) (e : Entry) → at t.slots j ≡ some e → Stored t e
Stored-at t table j e h = (j, rw (← table.width) (in-range t.slots j h), h)

module _ (t : Table) (table : IsTable t) (room : occupied t.slots < t.cap) (key : List ℕ) where
  start : ℕ
  start = fnv1a key % t.cap

  start-lt : start < t.cap
  unfolding start
  start-lt = omega (arith, table.wide)

  an_empty : (j : ℕ) × (j < t.cap) × (at t.slots j ≡ none)
  an_empty =
      some_empty (at t.slots) t.cap (rw (← table.width, count-occupied t.slots, table.width) room)

  hash_find-search : hash_find t key ≡ search t.cap (at t.slots) (has_key key) t.cap start
  unfolding hash_find start
  hash_find-search = ground (arith, table.wide)

  -- The search meets a stored key at its slot, or gives the first empty slot behind its home.
  abbrev pub Finds : Search Entry → Type 0
  Finds r =
      ((j : ℕ) × (e : Entry) × (r ≡ hit j e) × (at t.slots j ≡ some e) × (e.key ≡ key))
      ⊎ ((d : ℕ) × (r ≡ missing (pos t.cap (fnv1a key % t.cap) d))
          × EmptyAt t.cap (at t.slots) (fnv1a key % t.cap) d
          × ((e : Entry) → Stored t e → e.key ≢ key))

  passing : List Entry
  passing = select (has_key key) (walk t.cap (at t.slots) t.cap start)

  passing-Stored : passing ≡ [] → (e : Entry) → Stored t e → e.key ≢ key
  unfolding passing start
  passing-Stored nothing e (j, lt, there) same =
      let d = distance t.cap start j in
      let reached : pos t.cap start d ≡ j = pos-distance t.cap start j start-lt lt in
      let hd = distance-lt t.cap start j table.wide in
      let from : home t.cap e ≡ start = ap (λ (k : List ℕ). fnv1a k % t.cap) same in
      walk-meets t.cap (at t.slots) (has_key key) start d e start-lt hd (rw reached there)
        (rw same (list_eq_refl key)) (rw from at (table.probed e d hd (rw (from, reached) there)))
        nothing

  Ends-Finds :
      (r : Search Entry)
      → Ends (at t.slots) (has_key key) (first_empty t.cap (at t.slots) t.cap start) passing r
      → Finds r
  unfolding start
  Ends-Finds lost h = absurd h.lower
  Ends-Finds (hit j e) h = inl (j, e, refl, h.1, list_eq→eq e.key key h.2)
  Ends-Finds (missing i) h =
      let (j, lt, free) = an_empty in
      let (d, found, empty) = first_empty-EmptyAt t.cap (at t.slots) start j start-lt lt free in
      inr (d, cc (h.1, found), empty, passing-Stored h.0)

  pub hash_find-Finds : Finds (hash_find t key)
  unfolding passing
  hash_find-Finds =
      let (j, lt, free) = an_empty in
      rw hash_find-search
        (Ends-Finds _ (search-Ends-walk t.cap (at t.slots) (has_key key) start j start-lt lt free))
