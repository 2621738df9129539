-- ===== src/Tokenizer/Vocab/Filled.antt =====
-- The hash index of a list of items holds them all, in the order in which they were entered.
use etha_jhol.Common.{
  ℕ, zero, suc, ◌+◌, ◌*◌, ◌%◌, ◌<◌, ◌≤◌, ◌≡◌, inl, inr, refl, sym, ap, ◌∙◌, subst, arith, Option,
  none, some, List, [], ◌∷◌, ◌++◌, ltb, ltb→ge, length, length-append, length-replicate, length-set,
  get_or, set, replicate, append_assoc, append-nil, Bool-cases,
}
use etha_jhol.Probe.Table.{Holds, empty-Holds, insert-Holds}
use etha_jhol.Probe.Walk.{write}
use mathlib.Core.Path.{fun_ext}
use etha_jhol.Tokenizer.Vocab.{
  Index, index_cap, index_build, at, index_insert, index_from, index_items,
}

module _ {V : Type 0} where
  get_or-set_at :
      (slot : List (Option V)) (i : ℕ) (v : V)
      → i < length slot
      → (j : ℕ) → get_or (set slot i (some v)) j none ≡ write (λ k. get_or slot k none) i v j
  unfolding write
  get_or-set_at [] i v h j = absurd (omega arith)
  get_or-set_at (s ∷ slot) zero v h zero = refl
  get_or-set_at (s ∷ slot) zero v h (suc j) = ground arith
  get_or-set_at (s ∷ slot) (suc i) v h zero = ground arith
  get_or-set_at (s ∷ slot) (suc i) v h (suc j) =
      ground (arith, get_or-set_at slot i v (omega arith) j)

get_or-replicate : (n i : ℕ) → get_or (replicate {A = Option ℕ} n none) i none ≡ none
get_or-replicate zero i = refl
get_or-replicate (suc n) zero = refl
get_or-replicate (suc n) (suc i) = get_or-replicate n i

-- The capacity leaves half of the slots free.
index_cap-room :
    (fuel n cap : ℕ)
    → n * 2 ≤ cap + fuel
    → 0 < cap
    → (n * 2 ≤ index_cap fuel n cap) × (0 < index_cap fuel n cap)
unfolding index_cap
index_cap-room zero n cap h some_slot = (omega arith, some_slot)
index_cap-room (suc fuel) n cap h some_slot = elim (Bool-cases (ltb cap (n * 2))) [
  | inl small ↦ rw (index_cap, small) (index_cap-room fuel n (cap * 2) (omega arith) (omega arith))
  | inr large ↦ rw (index_cap, large) (ltb→ge cap (n * 2) large, some_slot)
]

-- The numbers from `i` on, `n` of them.
abbrev pub from : ℕ → ℕ → List ℕ
from i zero = []
from i (suc n) = i ∷ from (i + 1) n

pub length-from : (i n : ℕ) → length (from i n) ≡ n
length-from i zero = refl
length-from i (suc n) = omega (arith, length-from (i + 1) n)

from-snoc : (i n : ℕ) → from i n ++ (i + n) ∷ [] ≡ from i (n + 1)
from-snoc i zero = let e : i + 0 ≡ i = omega arith in rw e refl
from-snoc i (suc n) =
    let e : i + suc n ≡ i + 1 + n = omega arith in
    let k : suc n + 1 ≡ suc (n + 1) = omega arith in
    rw (e, k) (ap (λ xs. i ∷ xs) (from-snoc (i + 1) n))

-- The item behind a prefix.
pub get_or-append :
    {X : Type 0} (d : X) (pre : List X) (x : X) (rest : List X)
    → get_or (pre ++ x ∷ rest) (length pre) d ≡ x
get_or-append d [] x rest = refl
get_or-append d (y ∷ pre) x rest = get_or-append d pre x rest

module _ {X : Type 0} (hash : X → ℕ) (d : X) (vocab : List X) where
  abbrev pub home : ℕ → ℕ → ℕ
  home cap i = hash (get_or vocab i d) % cap

  -- The index holds the first `n` tokens.
  pub record IsIndex (n : ℕ) (ix : Index) : Type 0 where
    pub width : length ix.slot ≡ ix.cap
    pub wide : length vocab * 2 ≤ ix.cap
    pub some_slot : 0 < ix.cap
    pub holds : Holds ix.cap (home ix.cap) (at ix.slot) (from 0 n)

  index_insert-IsIndex :
      (n : ℕ) (ix : Index)
      → n < length vocab
      → IsIndex n ix
      → (ix' : Index) × (index_insert ix (hash (get_or vocab n d)) n ≡ some ix')
        × IsIndex (n + 1) ix'
  unfolding index_insert
  index_insert-IsIndex n ix room h =
      let (e, found, lt, holds) =
        insert-Holds ix.cap (home ix.cap) (λ v. omega (arith, h.some_slot)) (at ix.slot) (from 0 n)
          n h.holds (omega (arith, length-from 0 n, h.wide)) in
      let after : at (set ix.slot e (some n)) ≡ write (at ix.slot) e n =
        fun_ext (get_or-set_at ix.slot e n (omega (arith, lt, h.width))) in
      (
        record ix { slot = set ix.slot e (some n) },
        rw (index_insert, found) refl,
        record {
          width = length-set ix.slot e (some n) ∙ h.width;
          wide = h.wide;
          some_slot = h.some_slot;
          holds = subst (Holds ix.cap (home ix.cap) (at (set ix.slot e (some n)))) (from-snoc 0 n) (
              subst (λ f. Holds ix.cap (home ix.cap) f (from 0 n ++ (0 + n) ∷ [])) (sym after)
                (subst
                  (λ k. Holds ix.cap (home ix.cap) (write (at ix.slot) e n) (from 0 n ++ k ∷ []))
                  (omega arith) holds));
        },
      )

  index_from-IsIndex :
      (pre texts : List X) (ix : Index)
      → pre ++ texts ≡ vocab
      → IsIndex (length pre) ix
      → (ix' : Index) × (index_from hash (length pre) texts ix ≡ some ix')
        × IsIndex (length vocab) ix'
  unfolding index_from
  index_from-IsIndex pre [] ix whole h =
      (ix, refl, subst (λ xs. IsIndex (length xs) ix) (sym (append-nil pre) ∙ whole) h)
  index_from-IsIndex pre (text ∷ texts) ix whole h =
      let here : get_or vocab (length pre) d ≡ text =
        subst (λ v. get_or v (length pre) d ≡ text) whole (get_or-append d pre text texts) in
      let size : length (pre ++ text ∷ []) ≡ length pre + 1 =
        omega (arith, length-append pre (text ∷ [])) in
      let inside : length pre < length vocab =
        omega (arith, length-append pre (text ∷ texts), ap length whole) in
      let (ix', made, h') = index_insert-IsIndex (length pre) ix inside h in
      let (last, rest, all) =
        index_from-IsIndex (pre ++ text ∷ []) texts ix' (append_assoc pre (text ∷ []) texts ∙ whole)
          (subst (λ n. IsIndex n ix') (sym size) h') in
      let made' = subst (λ t. index_insert ix (hash t) (length pre) ≡ some ix') here made in
      (
        last,
        rw (index_from, made') (subst (λ n. index_from hash n texts ix' ≡ some last) size rest),
        all,
      )

  -- Every list of items that is not empty is indexed, each item at its hash or behind.
  pub index_items-IsIndex :
      0 < length vocab
      → (ix : Index) × (index_items hash vocab ≡ some ix) × IsIndex (length vocab) ix
  unfolding index_items index_build
  index_items-IsIndex some_item =
      let n = length vocab in
      let (room, some_slot) = index_cap-room (n * 2) n 16 (omega arith) (omega arith) in
      let cap = index_cap (n * 2) n 16 in
      index_from-IsIndex [] vocab (index_build n) refl (record {
        width = length-replicate cap none;
        wide = room;
        some_slot = some_slot;
        holds =
            empty-Holds cap (home cap) (λ v. omega (arith, some_slot)) (at (replicate cap none))
              (get_or-replicate cap);
      })
