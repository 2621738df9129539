-- ===== src/Gguf/Hash/Grow.antt =====
-- Growth: the move to a larger table loses nothing.
use etha_jhol.Common.{
  ℕ, zero, suc, ◌+◌, ◌*◌, ◌/◌, ◌%◌, ◌<◌, ◌≡◌, ◌≢◌, ◌⊎◌, ◌↔◌, inl, inr, refl, sym, ◌∙◌, ap, arith,
  true, false, Option, none, some, List, [], ◌∷◌, Bool-cases, leb, ◌==◌, length-replicate,
  replicate,
}
use etha_jhol.Gguf.Hash.{Entry, Table, fnv1a, at, occupied, store, rehash, make_room}
use etha_jhol.Gguf.Hash.Slots.{Stored, IsDistinct, IsTable, Stored-at, hash_find-Finds}
use etha_jhol.Gguf.Hash.Write.{
  after_write, after_write-IsTable, after_write-Stored, after_write-occupied,
}

at-replicate : (n j : ℕ) → at (replicate n none) j ≡ none
at-replicate zero j = refl
at-replicate (suc n) zero = refl
at-replicate (suc n) (suc j) = at-replicate n j

pub occupied-replicate : (n : ℕ) → occupied (replicate n none) ≡ 0
unfolding occupied
occupied-replicate zero = refl
occupied-replicate (suc n) = occupied-replicate n

abbrev pub new_table : ℕ → Table
new_table n = record { slots = replicate n none; cap = n }

-- A new table is well formed and holds nothing.
pub new_table-IsTable : (n : ℕ) → 0 < n → IsTable (new_table n)
new_table-IsTable n h = record {
  width = length-replicate n none;
  wide = h;
  probed = λ v d hd found k kd. cc (at-replicate n ((fnv1a v.key % n + d) % n));
  distinct = λ i j u v hi hj same. cc (at-replicate n i);
}

-- The list of slots holds the entry.
abbrev Listed : List (Option Entry) → Entry → Type 0
Listed slots u = (j : ℕ) × (at slots j ≡ some u)

Listed-tail :
    (s : Option Entry) (slots : List (Option Entry)) (u : Entry)
    → Listed slots u
    → Listed (s ∷ slots) u
Listed-tail s slots u (j, h) = (suc j, h)

Listed-none : (slots : List (Option Entry)) (u : Entry) → Listed (none ∷ slots) u → Listed slots u
Listed-none slots u (zero, h) = cc
Listed-none slots u (suc j, h) = (j, h)

Listed-some :
    (slots : List (Option Entry)) (e u : Entry)
    → Listed (some e ∷ slots) u
    → (u ≡ e) ⊎ Listed slots u
Listed-some slots e u (zero, h) = inl (cc)
Listed-some slots e u (suc j, h) = inr (j, h)

-- A run of the loop over `slots` that ends in `r`.
record Moved (slots : List (Option Entry)) (nt r : Table) : Type 0 where
  table : IsTable r
  cap : r.cap ≡ nt.cap
  total : occupied r.slots ≡ occupied slots + occupied nt.slots
  holds : (u : Entry) → Stored r u ↔ (Stored nt u ⊎ Listed slots u)

tail-IsDistinct :
    (s : Option Entry) (slots : List (Option Entry))
    → IsDistinct (at (s ∷ slots))
    → IsDistinct (at slots)
tail-IsDistinct s slots h i j u v p q same = omega (arith, h (suc i) (suc j) u v p q same)

abbrev IsApart : List (Option Entry) → Table → Type 0
IsApart slots nt = (e u : Entry) → Listed slots e → Stored nt u → u.key ≢ e.key

rehash-Moved :
    (slots : List (Option Entry)) (nt : Table)
    → IsTable nt
    → occupied slots + occupied nt.slots < nt.cap
    → IsDistinct (at slots)
    → IsApart slots nt
    → (r : Table) × (rehash slots nt ≡ some r) × Moved slots nt r
unfolding rehash occupied store
rehash-Moved [] nt table room distinct apart = (
  nt,
  refl,
  record {
    table = table;
    cap = refl;
    total = omega arith;
    holds = λ u. (λ s. inl s, λ x. elim x [ inl s ↦ s | inr (j, h) ↦ cc ]);
  },
)
rehash-Moved (none ∷ slots) nt table room distinct apart =
    let (r, run, m) =
      rehash-Moved slots nt table room (tail-IsDistinct none slots distinct)
        (λ e u l. apart e u (Listed-tail none slots e l)) in
    (
      r,
      run,
      record {
        table = m.table;
        cap = m.cap;
        total = m.total;
        holds = λ u. (
          λ s. elim ((m.holds u).0 s) [ inl x ↦ inl x | inr l ↦ inr (Listed-tail none slots u l) ],
          λ x. (m.holds u).1 (elim x [ inl s ↦ inl s | inr l ↦ inr (Listed-none slots u l) ]),
        );
      },
    )
rehash-Moved (some e ∷ slots) nt table room distinct apart =
    elim (hash_find-Finds nt table (omega arith) e.key) [
      | inl (j, old, found, there, same) ↦
          absurd (apart e old (0, refl) (Stored-at nt table j old there) same)
      | inr (d, found, empty, new) ↦
          let next = after_write nt table e d empty new in
          let counted = after_write-occupied nt table e d empty new in
          let stored = after_write-Stored nt table e d empty new in
          let (r, run, m) =
            rehash-Moved slots next (after_write-IsTable nt table e d empty new)
              (omega (arith, counted)) (tail-IsDistinct (some e) slots distinct)
              (λ e' u l s same. elim ((stored u).0 s) [
                | inl q ↦ absurd (omega (arith, distinct 0 (suc l.0) e e' refl l.1 (cc)))
                | inr y ↦ apart e' u (Listed-tail (some e) slots e' l) y same
              ]) in
          (
            r,
            rw (rehash, found, store) run,
            record {
              table = m.table;
              cap = m.cap;
              total = omega (arith, m.total, counted);
              holds = λ u. (
                λ s. elim ((m.holds u).0 s) [
                  | inl x ↦ elim ((stored u).0 x) [
                    | inl q ↦ inr (0, ap some (sym q))
                    | inr y ↦ inl y
                  ]
                  | inr l ↦ inr (Listed-tail (some e) slots u l)
                ],
                λ x. (m.holds u).1 (elim x [
                  | inl s ↦ inl ((stored u).1 (inr s))
                  | inr l ↦ elim (Listed-some slots e u l) [
                    | inl q ↦ inl ((stored u).1 (inl q))
                    | inr rest ↦ inr rest
                  ]
                ]),
              );
            },
          )
    ]

-- An index that is not allocated yet, or a well-formed table with room.
pub record IsReady (t : Table) : Type 0 where
  pub table : IsTable t
  pub room : occupied t.slots < t.cap

abbrev pub IsIndex : Table → Type 0
IsIndex t = (t.cap ≡ 0) ⊎ IsReady t

-- The table `r` has room for one more entry and holds what `t` holds.
pub record Roomy (t r : Table) : Type 0 where
  pub table : IsTable r
  pub room : occupied r.slots + 1 < r.cap
  pub holds : (u : Entry) → Stored r u ↔ Stored t u

pub no_entry : (n : ℕ) (u : Entry) → ¬ Stored (new_table n) u
no_entry n u (j, lt, h) = cc (at-replicate n j)

grow-Roomy :
    (t : Table)
    → IsReady t
    → (r : Table) × (rehash t.slots (record { slots = replicate (t.cap * 2) none; cap = t.cap * 2 })
        ≡ some r)
      × Roomy t r
grow-Roomy t ready =
    let nt = new_table (t.cap * 2) in
    let (r, run, m) =
      rehash-Moved t.slots nt (new_table-IsTable (t.cap * 2) (omega (arith, ready.table.wide)))
        (omega (arith, ready.room, occupied-replicate (t.cap * 2))) ready.table.distinct
        (λ e u l s. absurd (no_entry (t.cap * 2) u s)) in
    (
      r,
      run,
      record {
        table = m.table;
        room = omega (arith, m.total, m.cap, ready.room, occupied-replicate (t.cap * 2));
        holds = λ u. (
          λ s. elim ((m.holds u).0 s) [
            | inl x ↦ absurd (no_entry (t.cap * 2) u x)
            | inr (j, h) ↦ Stored-at t ready.table j u h
          ],
          λ (j, lt, h). (m.holds u).1 (inr (j, h)),
        );
      },
    )

make_room_first : (t : Table) → t.cap ≡ 0 → make_room t ≡ make_room (new_table 64)
unfolding make_room
make_room_first t h = let zero' : (t.cap == 0) ≡ true = ground (arith, h) in rw zero'

room-Roomy : (t : Table) → IsReady t → (r : Table) × (make_room t ≡ some r) × Roomy t r
unfolding make_room
room-Roomy t ready =
    let wide : (t.cap == 0) ≡ false = ground (arith, ready.table.wide) in
    elim (Bool-cases (leb (t.cap * 3 / 4) (occupied t.slots))) [
      | inl full ↦ let (r, run, roomy) = grow-Roomy t ready in (r, rw (wide, full) run, roomy)
      | inr fits ↦ (
        t,
        rw (wide, fits),
        record {
          table = ready.table;
          room = ground (arith, ready.table.wide);
          holds = λ u. (λ s. s, λ s. s);
        },
      )
    ]

-- Making room never goes through NULL.
pub make_room-Roomy : (t : Table) → IsIndex t → (r : Table) × (make_room t ≡ some r) × Roomy t r
make_room-Roomy t (inr ready) = room-Roomy t ready
make_room-Roomy t (inl empty) =
    let ready : IsReady (new_table 64) = record {
      table = new_table-IsTable 64 (omega arith);
      room = omega (arith, occupied-replicate 64);
    } in
    let (r, run, roomy) = room-Roomy (new_table 64) ready in
    (
      r,
      make_room_first t empty ∙ run,
      record {
        table = roomy.table;
        room = roomy.room;
        holds = λ u.
            (λ s. absurd (no_entry 64 u ((roomy.holds u).0 s)), λ (j, lt, h). absurd (omega arith));
      },
    )
