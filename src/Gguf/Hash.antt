-- ===== src/Gguf/Hash.antt =====
-- The name index of src/gguf.c: `fnv1a`, `hash_find` and `hash_insert`. A table is the list of its
-- slots; `none` is a slot that is not occupied. A name is the list of its bytes, with no zero byte.
pub mod Slots
pub mod Write
pub mod Grow
pub mod Insert
use etha_jhol.Common.{
  ℕ, zero, suc, ◌+◌, ◌*◌, ◌/◌, ◌%◌, ◌^◌, Bool, true, false, Option, none, some, List, [], ◌∷◌,
  bit_xor, leb, ◌==◌, if◌then◌else◌, list_eq, length, get_or, set, replicate,
}
use etha_jhol.Probe.Search.{Search, lost, missing, hit, search}

pub record Entry : Type 0 where
  pub key : List ℕ
  pub index : ℕ

-- The table and its `cap`.
pub record Table : Type 0 where
  pub slots : List (Option Entry)
  pub cap : ℕ

fnv1a_from : ℕ → List ℕ → ℕ
fnv1a_from h [] = h
fnv1a_from h (p ∷ s) = fnv1a_from (bit_xor h p * 16777619 % 2 ^ 32) s

unfoldable pub fnv1a : List ℕ → ℕ
unfolding fnv1a_from
fnv1a s = fnv1a_from 2166136261 s

abbrev pub at : List (Option Entry) → ℕ → Option Entry
at slots i = get_or slots i none

-- `strcmp(e->key, key) == 0`
abbrev pub has_key : List ℕ → Entry → Bool
has_key key e = list_eq e.key key

-- `lost` is the result NULL, `missing i` a pointer to the empty slot `i`, and `hit i e` one to the
-- slot `i` that holds the key.
unfoldable pub hash_find : Table → List ℕ → Search Entry
hash_find t key =
    if t.cap == 0 then lost else search t.cap (at t.slots) (has_key key) t.cap (fnv1a key % t.cap)

unfoldable pub occupied : List (Option Entry) → ℕ
occupied [] = 0
occupied (none ∷ slots) = occupied slots
occupied (some e ∷ slots) = suc (occupied slots)

-- A write of the entry through the pointer that `hash_find` returned; `none` is a write through NULL.
unfoldable pub store : Table → Search Entry → Entry → Option Table
store t lost e = none
store t (missing i) e = some (record t { slots = set t.slots i (some e) })
store t (hit i old) e = some (record t { slots = set t.slots i (some e) })

-- The loop that moves the entries to the larger table.
unfoldable pub rehash : List (Option Entry) → Table → Option Table
rehash [] nt = some nt
rehash (none ∷ slots) nt = rehash slots nt
rehash (some e ∷ slots) nt = elim (store nt (hash_find nt e.key) e) [
  | none ↦ none
  | some nt' ↦ rehash slots nt'
]

-- The table with 64 slots where there was none, and doubled from three quarters on.
unfoldable pub make_room : Table → Option Table
make_room t₀ =
    let t : Table = if t₀.cap == 0 then record { slots = replicate 64 none; cap = 64 } else t₀ in
    if leb (t.cap * 3 / 4) (occupied t.slots)
    then rehash t.slots (record { slots = replicate (t.cap * 2) none; cap = t.cap * 2 })
    else some t

-- The table, and whether the name was new. `none` is an access through NULL.
unfoldable pub hash_insert : Table → List ℕ → ℕ → Option (Table × Bool)
hash_insert t₀ key index = elim (make_room t₀) [
  | none ↦ none
  | some t ↦ elim (hash_find t key) [
    | lost ↦ none
    | hit i e ↦ some (t, false)
    | missing i ↦
        some (record t { slots = set t.slots i (some (record { key = key; index = index })) }, true)
  ]
]
