-- ===== src/Gguf/Hash/Insert.antt =====
-- Insertion: nothing that a table holds is lost, and no access goes through NULL.
use etha_jhol.Common.{ℕ, ◌≡◌, ◌≢◌, ◌⊎◌, ◌↔◌, inl, inr, refl, arith, Bool, true, false, some, List}
use etha_jhol.Gguf.Hash.{Entry, Table, hash_insert}
use etha_jhol.Gguf.Hash.Grow.{IsReady, IsIndex, make_room-Roomy}
use etha_jhol.Gguf.Hash.Slots.{Stored, Stored-at, hash_find-Finds}
use etha_jhol.Gguf.Hash.Write.{
  after_write, after_write-IsTable, after_write-Stored, after_write-occupied,
}

-- What an insertion of the entry gives: the table `r.0`, and in `r.1` whether the name was new.
pub record Inserts (t : Table) (e : Entry) (r : Table × Bool) : Type 0 where
  pub ready : IsReady r.0
  pub holds : (u : Entry) → Stored r.0 u ↔ (Stored t u ⊎ ((r.1 ≡ true) × (u ≡ e)))
  pub new : r.1 ≡ true → (u : Entry) → Stored t u → u.key ≢ e.key
  pub old : r.1 ≡ false → (u : Entry) × Stored t u × (u.key ≡ e.key)

-- In a table with no slots, or with a free slot and every entry where a search for its name meets
-- it, `hash_insert` never goes through NULL. It keeps all that the table holds, also when it grows, and
-- adds the entry exactly if its name is new.
pub hash_insert-Inserts :
    (t : Table) (key : List ℕ) (index : ℕ)
    → IsIndex t
    → (r : Table × Bool) × (hash_insert t key index ≡ some r)
      × Inserts t (record { key = key; index = index }) r
unfolding hash_insert
hash_insert-Inserts t key index h =
    let e : Entry = record { key = key; index = index } in
    let (r, run, roomy) = make_room-Roomy t h in
    elim (hash_find-Finds r roomy.table (omega (arith, roomy.room)) key) [
      | inl (j, old, found, there, same) ↦ (
        (r, false),
        rw (hash_insert, run, found),
        record {
          ready = record { table = roomy.table; room = omega (arith, roomy.room) };
          holds = λ u. (
            λ s. inl ((roomy.holds u).0 s),
            λ x. elim x [ inl s ↦ (roomy.holds u).1 s | inr (q, _) ↦ cc ],
          );
          new = λ q. cc;
          old = λ _. (old, (roomy.holds old).0 (Stored-at r roomy.table j old there), same);
        },
      )
      | inr (d, found, empty, new) ↦
          let stored = after_write-Stored r roomy.table e d empty new in
          (
            (after_write r roomy.table e d empty new, true),
            rw (hash_insert, run, found),
            record {
              ready = record {
                table = after_write-IsTable r roomy.table e d empty new;
                room = omega (arith, roomy.room, after_write-occupied r roomy.table e d empty new);
              };
              holds = λ u. (
                λ s. elim ((stored u).0 s) [
                  | inl q ↦ inr (refl, q)
                  | inr y ↦ inl ((roomy.holds u).0 y)
                ],
                λ x. elim x [
                  | inl s ↦ (stored u).1 (inr ((roomy.holds u).1 s))
                  | inr (_, q) ↦ (stored u).1 (inl q)
                ],
              );
              new = λ _ u s. new u ((roomy.holds u).1 s);
              old = λ q. cc;
            },
          )
    ]
