-- ===== src/Gguf/Index/Agrees.antt =====
-- The name index answers as the loop over all names does.
use etha_jhol.Common.{
  ℕ, ◌+◌, ◌<◌, ◌≡◌, ◌≢◌, ◌↔◌, inl, inr, refl, sym, ◌∙◌, ap, arith, Bool, none, some, List, [], ◌∷◌,
  ◌++◌, Bool-cases, Option-cases, ltb, if◌then◌else◌, list_eq, list_eq→eq, list_eq_refl, length,
  length-append, append-nil, append_assoc,
}
use etha_jhol.Gguf.Hash.{Table, Entry}
use etha_jhol.Gguf.Hash.Grow.{new_table, new_table-IsTable, occupied-replicate, no_entry, IsReady}
use etha_jhol.Gguf.Hash.Insert.{Inserts, hash_insert-Inserts}
use etha_jhol.Gguf.Hash.Slots.{Stored, hash_find-Finds, Stored-at}
use etha_jhol.Gguf.Index.{insert_from, build_index, linear_from, find_name}

-- The table holds exactly the first occurrence of each of the names.
abbrev pub Indexes : List (List ℕ) → Table → Type 0
Indexes names t = (u : Entry) → Stored t u ↔ (linear_from 0 names u.key ≡ some u.index)

-- The search after one more name.
linear_from-snoc :
    (i : ℕ) (names : List (List ℕ)) (name key : List ℕ)
    → linear_from i (names ++ name ∷ []) key ≡ elim (linear_from i names key) [
      | none ↦ if list_eq name key then some (i + length names) else none
      | some j ↦ some j
    ]
unfolding linear_from
linear_from-snoc i [] name key = ground arith
linear_from-snoc i (n ∷ names) name key = ground (arith, linear_from-snoc (i + 1) names name key)

snoc-hit :
    (names : List (List ℕ)) (name key : List ℕ) {j : ℕ}
    → linear_from 0 names key ≡ some j
    → linear_from 0 (names ++ name ∷ []) key ≡ some j
snoc-hit names name key h = linear_from-snoc 0 names name key ∙ rw h

snoc-miss :
    (names : List (List ℕ)) (name key : List ℕ)
    → linear_from 0 names key ≡ none
    → linear_from 0 (names ++ name ∷ []) key
      ≡ (if list_eq name key then some (length names) else none)
snoc-miss names name key h =
    linear_from-snoc 0 names name key
    ∙ rw h (ap (λ (n : ℕ). if list_eq name key then some n else none) (omega arith))

-- A name that the table does not hold is not found by the loop.
not-Stored :
    (names : List (List ℕ)) (t : Table) (key : List ℕ)
    → Indexes names t
    → ((u : Entry) → Stored t u → u.key ≢ key)
    → linear_from 0 names key ≡ none
not-Stored names t key h new = elim (Option-cases (linear_from 0 names key)) [
  | inl e ↦ e
  | inr (j, e) ↦ let u : Entry = record { key = key; index = j } in absurd (new u ((h u).1 e) refl)
]

module _ (names : List (List ℕ)) (name : List ℕ) (t : Table) (r : Table × Bool)
    (h : Indexes names t) (ins : Inserts t (record { key = name; index = length names }) r)
    (u : Entry) where
  Stored-found : Stored r.0 u → linear_from 0 (names ++ name ∷ []) u.key ≡ some u.index
  Stored-found s = elim ((ins.holds u).0 s) [
    | inl old ↦ snoc-hit names name u.key ((h u).0 old)
    | inr (fresh, e) ↦ rw e (
        snoc-miss names name name (not-Stored names t name h (ins.new fresh))
        ∙ rw (list_eq_refl name))
  ]

  found-last :
      linear_from 0 names u.key ≡ none
      → (if list_eq name u.key then some (length names) else none) ≡ some u.index
      → Stored r.0 u
  found-last miss found = elim (Bool-cases (list_eq name u.key)) [
    | inr apart ↦ absurd (cc (rw apart at found))
    | inl same ↦
        let key = list_eq→eq name u.key same in
        let index : length names ≡ u.index = cc (rw same at found) in
        elim (Bool-cases r.1) [
          | inl fresh ↦
              (ins.holds u).1 (inr (fresh, λ k. record { key = sym key k; index = sym index k }))
          | inr stale ↦
              let (w, old, is_name) = ins.old stale in absurd (cc ((h w).0 old, is_name, key, miss))
        ]
  ]

  found-Stored : linear_from 0 (names ++ name ∷ []) u.key ≡ some u.index → Stored r.0 u
  found-Stored found = elim (Option-cases (linear_from 0 names u.key)) [
    | inr (j, e) ↦
        let same : j ≡ u.index = cc (snoc-hit names name u.key e) in
        (ins.holds u).1 (inl ((h u).1 (e ∙ ap some same)))
    | inl e ↦ found-last e (sym (snoc-miss names name u.key e) ∙ found)
  ]

insert_from-Indexes :
    (names done : List (List ℕ)) (t : Table)
    → IsReady t
    → Indexes done t
    → (r : Table) × (insert_from (length done) names t ≡ some r)
      × IsReady r
      × Indexes (done ++ names) r
unfolding insert_from
insert_from-Indexes [] done t ready h = (t, refl, ready, rw (append-nil done) h)
insert_from-Indexes (name ∷ names) done t ready h =
    let (r, run, ins) = hash_insert-Inserts t name (length done) (inr ready) in
    let next : Indexes (done ++ name ∷ []) r.0 =
      λ u. (Stored-found done name t r h ins u, found-Stored done name t r h ins u) in
    let (r', run', ready', h') = insert_from-Indexes names (done ++ name ∷ []) r.0 ins.ready next in
    (
      r',
      rw (insert_from, run) (rw (length-append done (name ∷ [])) at run'),
      ready',
      rw (append_assoc done (name ∷ []) names) at h',
    )

empty-Indexes : (n : ℕ) → Indexes [] (new_table n)
unfolding linear_from
empty-Indexes n u = (λ s. absurd (no_entry n u s), λ e. cc)

find_name-Indexes :
    (t : Table) (names : List (List ℕ)) (key : List ℕ)
    → IsReady t
    → Indexes names t
    → find_name t names key ≡ linear_from 0 names key
unfolding find_name
find_name-Indexes t names key ready h = elim (hash_find-Finds t ready.table ready.room key) [
  | inr (d, missed, empty, new) ↦ rw (find_name, missed)
  | inl (j, e, found, there, same) ↦
      rw (find_name, found)
        (sym ((h e).0 (Stored-at t ready.table j e there)) ∙ ap (linear_from 0 names) same)
]

-- The index of any list of names is built with no access through NULL, and every lookup in it
-- gives what the loop over all the names gives: the first position of the name, if there is one.
pub find_name-linear :
    (names : List (List ℕ))
    → (t : Table) × (build_index names ≡ some t)
      × ((key : List ℕ) → find_name t names key ≡ linear_from 0 names key)
unfolding build_index
find_name-linear names =
    let cap : ℕ = if ltb 64 (length names) then length names else 64 in
    let wide : 0 < cap = ground arith in
    let start : IsReady (new_table cap) = record {
      table = new_table-IsTable cap wide;
      room = omega (arith, occupied-replicate cap, wide);
    } in
    let (t, run, ready, h) =
      insert_from-Indexes names [] (new_table cap) start (empty-Indexes cap) in
    (t, run, λ key. find_name-Indexes t names key ready h)
