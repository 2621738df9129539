-- ===== src/Tokenizer/Merges/Finds.antt =====
-- `find_merge` gives the first rule of a pair, as a search of all rules does.
use etha_jhol.Common.{
  ℕ, zero, suc, ◌+◌, ◌%◌, ◌≤◌, ◌<◌, ◌≡◌, inl, inr, refl, ap, ap₂, ◌∙◌, subst, arith, true, false,
  ◌&&◌, Option, none, some, List, [], ◌∷◌, ◌++◌, length, length-append, append_assoc, get_or,
  list_eq, list_eq→eq, ltb, if◌then◌else◌, Bool-cases, Option-cases,
}
use etha_jhol.Gguf.Reader.{c_string}
use etha_jhol.Probe.Ring.{pos, next-pos, pos-zero, distance, distance-lt, pos-distance}
use etha_jhol.Probe.Search.{first}
use etha_jhol.Probe.Table.{some_empty}
use etha_jhol.Probe.Walk.{select, walk}
use native.Mathlib.Decide.{ℕ_discrete}
use etha_jhol.Tokenizer.Array.{entries_from}
use etha_jhol.Tokenizer.Merges.{
  Merge, split_entry, unescape_half, merges_from, read_merges, pair_hash, merge_hash, index_merges,
  no_merge, is_pair, better, merge_from, find_merge,
}
use etha_jhol.Tokenizer.Vocab.{Index, at}
use etha_jhol.Tokenizer.Vocab.Filled.{
  from, length-from, get_or-append, IsIndex, index_items-IsIndex,
}

module _ (step : ℕ → Option ℕ → Option ℕ) where
  abbrev best_of : Option ℕ → List ℕ → Option ℕ
  best_of best [] = best
  best_of best (v ∷ vs) = best_of (step v best) vs

  merge_from-walk_from :
      (n : ℕ) (at : ℕ → Option ℕ) (fuel s d k : ℕ) (best : Option ℕ)
      → s < n
      → d + fuel ≡ n
      → d ≤ k
      → k < n
      → at (pos n s k) ≡ none
      → merge_from n at step fuel (pos n s d) best
        ≡ some (best_of best (walk n at fuel (pos n s d)))
  unfolding merge_from walk
  merge_from-walk_from n at zero s d k best hs hd le hk free = absurd (omega arith)
  merge_from-walk_from n at (suc fuel) s d k best hs hd le hk free =
      elim (Option-cases (at (pos n s d))) [
        | inl e ↦ rw (e, walk, merge_from) refl
        | inr (v, e) ↦ elim (ℕ_discrete d k) [
          | yes q ↦ absurd (cc (ap (λ (x : ℕ). at (pos n s x)) q))
          | no q ↦
              rw (e, walk, merge_from, next-pos n s d hs (omega arith))
                (merge_from-walk_from n at fuel s (d + 1) k (step v best) hs (omega arith)
                  (omega arith) hk free)
        ]
      ]

  -- The loop looks at every value of the run.
  merge_from-walk :
      (n : ℕ) (at : ℕ → Option ℕ) (s j : ℕ)
      → s < n
      → j < n
      → at j ≡ none
      → merge_from n at step n s none ≡ some (best_of none (walk n at n s))
  merge_from-walk n at s j hs lt free = rw (pos-zero n s hs) at (
      merge_from-walk_from n at n s 0 (distance n s j) none hs (omega arith) (omega arith)
        (distance-lt n s j (omega arith)) (rw (pos-distance n s j hs lt) free))

-- The number of the first rule of a pair, from rule `i` on.
unfoldable pub rule_from : ℕ → List Merge → List ℕ → List ℕ → Option ℕ
rule_from i [] a b = none
rule_from i (m ∷ ms) a b =
    let rest = rule_from (i + 1) ms a b in if list_eq m.a a && list_eq m.b b then some i else rest

module _ (ms : List Merge) (a b : List ℕ) where
  better-other :
      (mi : ℕ) (best : Option ℕ) → is_pair ms a b mi ≡ false → better ms a b mi best ≡ best
  unfolding better
  better-other mi none other = rw (other, better) refl
  better-other mi (some v) other = rw (other, better) refl

  better-none : (mi : ℕ) → is_pair ms a b mi ≡ true → better ms a b mi none ≡ some mi
  unfolding better
  better-none mi same = rw (same, better) refl

  better-some :
      (mi v : ℕ)
      → ltb (get_or ms mi no_merge).rank (get_or ms v no_merge).rank ≡ false
      → better ms a b mi (some v) ≡ some v
  unfolding better
  better-some mi v not_less = elim (Bool-cases (is_pair ms a b mi)) [
    | inl same ↦ rw (better, same, not_less) refl
    | inr other ↦ rw (better, other) refl
  ]

  -- Rules of other pairs do not count.
  best_of-select :
      (best : Option ℕ) (vs : List ℕ)
      → best_of (better ms a b) best vs ≡ best_of (better ms a b) best (select (is_pair ms a b) vs)
  unfolding select
  best_of-select best [] = refl
  best_of-select best (v ∷ vs) = elim (Bool-cases (is_pair ms a b v)) [
    | inl same ↦ rw (same, select) (best_of-select (better ms a b v best) vs)
    | inr other ↦
        rw (other, select)
          (ap (λ x. best_of (better ms a b) x vs) (better-other v best other)
            ∙ best_of-select best vs)
  ]

  -- Each rule has its number as its rank.
  abbrev IsRanked : Type 0
  IsRanked = (i : ℕ) → i < length ms → (get_or ms i no_merge).rank ≡ i

  module _ (ranked : IsRanked) where
    best_of-first :
        (i n v : ℕ)
        → v < i
        → i + n ≤ length ms
        → best_of (better ms a b) (some v) (select (is_pair ms a b) (from i n)) ≡ some v
    unfolding select
    best_of-first i zero v lt room = refl
    best_of-first i (suc n) v lt room =
        let rest = best_of-first (i + 1) n v (omega arith) (omega arith) in
        let not_less : ltb (get_or ms i no_merge).rank (get_or ms v no_merge).rank ≡ false =
          ground (arith, ranked i (omega arith), ranked v (omega arith)) in
        elim (Bool-cases (is_pair ms a b i)) [
          | inl same ↦
              rw (same, select)
                (ap (λ x. best_of (better ms a b) x (select (is_pair ms a b) (from (i + 1) n)))
                    (better-some i v not_less)
                  ∙ rest)
          | inr other ↦ rw (other, select) rest
        ]

    best_of-lowest :
        (i n : ℕ)
        → i + n ≤ length ms
        → best_of (better ms a b) none (select (is_pair ms a b) (from i n))
          ≡ first (select (is_pair ms a b) (from i n))
    unfolding select
    best_of-lowest i zero room = refl
    best_of-lowest i (suc n) room = elim (Bool-cases (is_pair ms a b i)) [
      | inl same ↦
          rw (same, select)
            (ap (λ x. best_of (better ms a b) x (select (is_pair ms a b) (from (i + 1) n)))
                (better-none i same)
              ∙ best_of-first (i + 1) n i (omega arith) (omega arith))
      | inr other ↦ rw (other, select) (best_of-lowest (i + 1) n (omega arith))
    ]

  select-rule_from :
      (pre rest : List Merge)
      → pre ++ rest ≡ ms
      → first (select (is_pair ms a b) (from (length pre) (length rest)))
        ≡ rule_from (length pre) rest a b
  unfolding select rule_from
  select-rule_from pre [] whole = refl
  select-rule_from pre (m ∷ rest) whole =
      let here : get_or ms (length pre) no_merge ≡ m =
        subst (λ v. get_or v (length pre) no_merge ≡ m) whole (get_or-append no_merge pre m rest) in
      let size : length (pre ++ m ∷ []) ≡ length pre + 1 =
        omega (arith, length-append pre (m ∷ [])) in
      let more =
        subst (λ n. first (select (is_pair ms a b) (from n (length rest))) ≡ rule_from n rest a b)
          size (select-rule_from (pre ++ m ∷ []) rest (append_assoc pre (m ∷ []) rest ∙ whole)) in
      elim (Bool-cases (list_eq m.a a && list_eq m.b b)) [
        | inl same ↦ rw (here, same) refl
        | inr other ↦ rw (here, other) more
      ]

  is_pair-eq :
      (mi : ℕ)
      → is_pair ms a b mi ≡ true
      → ((get_or ms mi no_merge).a ≡ a) × ((get_or ms mi no_merge).b ≡ b)
  is_pair-eq mi same =
      let m = get_or ms mi no_merge in
      (list_eq→eq m.a a (ground arith), list_eq→eq m.b b (ground arith))

  IsIndex-find_merge :
      (ix : Index)
      → IsRanked
      → 0 < length ms
      → IsIndex merge_hash no_merge ms (length ms) ix
      → find_merge (some ix) ms a b ≡ some (rule_from 0 ms a b)
  unfolding find_merge
  IsIndex-find_merge ix ranked some_merge h =
      let n = length ms in
      let s = pair_hash a b % ix.cap in
      let hs : s < ix.cap = omega (arith, h.some_slot) in
      let room : length (from 0 n) < ix.cap = omega (arith, length-from 0 n, h.wide, some_merge) in
      let (j, lt, free) = some_empty (at ix.slot) ix.cap (rw h.holds.counted room) in
      let homes = λ (u : ℕ) (same : is_pair ms a b u ≡ true).
        ap₂ (λ x y. pair_hash x y % ix.cap) (is_pair-eq u same).0 (is_pair-eq u same).1 in
      let all = h.holds.found (is_pair ms a b) s hs homes in
      let step = better ms a b in
      merge_from-walk step ix.cap (at ix.slot) s j hs lt free
      ∙ ap some (
          best_of-select none (walk ix.cap (at ix.slot) ix.cap s)
          ∙ ap (best_of step none) all
          ∙ best_of-lowest ranked 0 n (omega arith)
          ∙ select-rule_from [] ms refl)

-- A rule in front of rules with the ranks from the next one on.
ranked-cons :
    (m : Merge) (ms : List Merge) (rank i : ℕ)
    → m.rank ≡ rank
    → i < length (m ∷ ms)
    → ((j : ℕ) → j < length ms → (get_or ms j no_merge).rank ≡ rank + 1 + j)
    → (get_or (m ∷ ms) i no_merge).rank ≡ rank + i
ranked-cons m ms rank zero e h more = omega (arith, e)
ranked-cons m ms rank (suc i) e h more = omega (arith, more i (omega arith))

-- The rules that are read have their numbers as ranks.
pub merges_from-ranked :
    (rank : ℕ) (entries : List (List ℕ)) (i : ℕ)
    → i < length (merges_from rank entries)
    → (get_or (merges_from rank entries) i no_merge).rank ≡ rank + i
unfolding merges_from
merges_from-ranked rank [] i h = absurd (omega arith)
merges_from-ranked rank (entry ∷ entries) i h = elim (Option-cases (split_entry (c_string entry))) [
  | inl unsplit ↦
      rw (unsplit, merges_from) (merges_from-ranked rank entries i (rw (unsplit, merges_from) at h))
  | inr (ab, split) ↦
      rw (split, merges_from)
        (ranked-cons (record { a = unescape_half ab.0; b = unescape_half ab.1; rank = rank })
          (merges_from (rank + 1) entries) rank i refl (rw (split, merges_from) at h)
          (λ j. merges_from-ranked (rank + 1) entries j))
]

-- Of the rules that the tokenizer reads from the metadata an index is built whenever there are any, and
-- `find_merge` ends and gives, of every two pieces, the first rule of the pair, as a search of the rules
-- in their order does, and none where there is no such rule.
pub index_merges-find_merge :
    (text : List ℕ)
    → (ix : Option Index) × (index_merges (read_merges text) ≡ some ix)
      × ((a b : List ℕ)
          → find_merge ix (read_merges text) a b ≡ some (rule_from 0 (read_merges text) a b))
unfolding index_merges find_merge read_merges rule_from
index_merges-find_merge text =
    by_rules (read_merges text)
      (λ i h. merges_from-ranked 0 (entries_from (length text) text) i h ∙ omega arith)
  where
    by_rules :
        (ms : List Merge)
        → ((i : ℕ) → i < length ms → (get_or ms i no_merge).rank ≡ i)
        → (ix : Option Index) × (index_merges ms ≡ some ix)
          × ((a b : List ℕ) → find_merge ix ms a b ≡ some (rule_from 0 ms a b))
    by_rules [] ranked = (none, refl, λ a b. refl)
    by_rules (m ∷ ms) ranked =
        let (ix, made, h) = index_items-IsIndex merge_hash no_merge (m ∷ ms) (omega arith) in
        (
          some ix,
          rw (made, index_merges) refl,
          λ a b. IsIndex-find_merge (m ∷ ms) a b ix ranked (omega arith) h,
        )
