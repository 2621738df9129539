-- ===== src/Gguf/Hash/Write.antt =====
-- What a write of a new entry does to a table.
use etha_jhol.Common.{
  ℕ, ◌+◌, ◌%◌, ◌<◌, ◌≡◌, ◌≢◌, ◌⊎◌, inl, inr, sym, subst, ◌∙◌, ap, ap₂, arith, ◌↔◌, some, length,
  length-set, set,
}
use etha_jhol.Gguf.Hash.Slots.{at-set, count-occupied, home, Stored, IsDistinct, IsTable, Stored-at}
use etha_jhol.Gguf.Hash.{Entry, Table, fnv1a, at, occupied}
use etha_jhol.Probe.Insert.{write_self, write_ne, write-IsProbed}
use etha_jhol.Probe.Ring.{pos, pos-lt}
use etha_jhol.Probe.Table.{count, count-write}
use etha_jhol.Probe.Walk.{write, IsProbed, EmptyAt}
use native.Mathlib.Decide.{ℕ_discrete}

-- A write of an entry with a new key at the slot that the search gave.
module _ (t : Table) (table : IsTable t) (e : Entry) (d : ℕ)
    (empty : EmptyAt t.cap (at t.slots) (fnv1a e.key % t.cap) d)
    (new : (u : Entry) → Stored t u → u.key ≢ e.key) where
  abbrev slot : ℕ
  slot = pos t.cap (fnv1a e.key % t.cap) d

  abbrev pub after_write : Table
  after_write = record t { slots = set t.slots slot (some e) }

  slot-lt : slot < t.cap
  slot-lt = pos-lt t.cap (fnv1a e.key % t.cap) d table.wide

  after-at : at (set t.slots slot (some e)) ≡ write (at t.slots) slot e
  after-at = at-set t.slots slot e (rw table.width slot-lt)

  write-cases :
      (i : ℕ) (u : Entry)
      → write (at t.slots) slot e i ≡ some u
      → ((i ≡ slot) × (u ≡ e)) ⊎ (at t.slots i ≡ some u)
  write-cases i u h = elim (ℕ_discrete i slot) [
    | yes p ↦ inl (p, cc (h, ap (write (at t.slots) slot e) p, write_self (at t.slots) slot e))
    | no p ↦ inr (sym (write_ne (at t.slots) slot e i p) ∙ h)
  ]

  old : (i : ℕ) (u : Entry) → at t.slots i ≡ some u → u.key ≢ e.key
  old i u h = new u (Stored-at t table i u h)

  write-IsDistinct : IsDistinct (write (at t.slots) slot e)
  write-IsDistinct i j u v hi hj same = elim (write-cases i u hi) [
    | inl (p, q) ↦ elim (write-cases j v hj) [
      | inl (p', q') ↦ p ∙ sym p'
      | inr there ↦ absurd (old j v there (cc))
    ]
    | inr here ↦ elim (write-cases j v hj) [
      | inl (p', q') ↦ absurd (old i u here (cc))
      | inr there ↦ table.distinct i j u v here there same
    ]
  ]

  pub after_write-IsTable : IsTable after_write
  after_write-IsTable = record {
    width = length-set t.slots slot (some e) ∙ table.width;
    wide = table.wide;
    probed = subst (IsProbed t.cap (home t.cap)) (sym after-at) (
        write-IsProbed t.cap (home t.cap) (at t.slots) table.probed e (omega (arith, table.wide)) d
          empty (λ u. omega (arith, table.wide)));
    distinct = subst IsDistinct (sym after-at) write-IsDistinct;
  }

  -- The table then holds the new entry and those that it held.
  pub after_write-Stored : (u : Entry) → Stored after_write u ↔ ((u ≡ e) ⊎ Stored t u)
  after_write-Stored u = (
    λ (j, lt, h). elim (write-cases j u (subst (λ f. f j ≡ some u) after-at h)) [
      | inl (p, q) ↦ inl q
      | inr there ↦ inr (j, lt, there)
    ],
    λ h. elim h [
      | inl q ↦ (
        slot,
        slot-lt,
        subst (λ f. f slot ≡ some u) (sym after-at)
            (write_self (at t.slots) slot e ∙ ap some (sym q)),
      )
      | inr (j, lt, there) ↦ (
        j,
        lt,
        subst (λ f. f j ≡ some u) (sym after-at)
            (write_ne (at t.slots) slot e j (λ p. cc (ap (at t.slots) p, empty.free)) ∙ there),
      )
    ],
  )

  pub after_write-occupied : occupied after_write.slots ≡ occupied t.slots + 1
  after_write-occupied =
      sym (count-occupied after_write.slots)
      ∙ ap₂ count after-at (length-set t.slots slot (some e))
      ∙ count-write (at t.slots) slot e (length t.slots) empty.free (rw table.width slot-lt)
      ∙ ap (λ (x : ℕ). x + 1) (count-occupied t.slots)
