-- ===== src/Tokenizer/Vocab/Finds.antt =====
-- The vocabulary index answers as a search of the whole vocabulary does.
use etha_jhol.Common.{
  ℕ, ◌+◌, ◌%◌, ◌<◌, ◌≡◌, inl, inr, refl, sym, ap, ◌∙◌, subst, arith, Option, some, List, [], ◌∷◌,
  ◌++◌, list_eq, list_eq→eq, length, length-append, get_or, append_assoc, Bool-cases,
}
use etha_jhol.Gguf.Index.{linear_from}
use etha_jhol.Probe.Search.{Search, lost, missing, hit, outcome, first, Ends, search-Ends}
use etha_jhol.Probe.Walk.{select}
use etha_jhol.Tokenizer.Vocab.{hash_bytes, Index, at, index_vocab, has_text, find_token_n}
use etha_jhol.Tokenizer.Vocab.Filled.{from, length-from, get_or-append, home, index_items-IsIndex}

module _ (vocab : List (List ℕ)) where
  select-linear :
      (text : List ℕ) (pre texts : List (List ℕ))
      → pre ++ texts ≡ vocab
      → first (select (has_text vocab text) (from (length pre) (length texts)))
        ≡ linear_from (length pre) texts text
  unfolding select linear_from
  select-linear text pre [] whole = refl
  select-linear text pre (x ∷ texts) whole =
      let here : get_or vocab (length pre) [] ≡ x =
        subst (λ v. get_or v (length pre) [] ≡ x) whole (get_or-append [] pre x texts) in
      let size : length (pre ++ x ∷ []) ≡ length pre + 1 =
        omega (arith, length-append pre (x ∷ [])) in
      let rest =
        subst
          (λ n.
            first (select (has_text vocab text) (from n (length texts))) ≡ linear_from n texts text)
          size
          (select-linear text (pre ++ x ∷ []) texts (append_assoc pre (x ∷ []) texts ∙ whole)) in
      elim (Bool-cases (list_eq x text)) [
        | inl same ↦ rw (here, same) refl
        | inr other ↦ rw (here, other) rest
      ]

  outcome-first :
      (ix : Index) (text : List ℕ) (empty : Option ℕ) (vs : List ℕ) (r : Search ℕ)
      → Ends (at ix.slot) (has_text vocab text) empty vs r
      → outcome r ≡ first vs
  outcome-first ix text empty vs lost h = absurd h.lower
  outcome-first ix text empty vs (missing i) (none_pass, free) = rw none_pass refl
  outcome-first ix text empty vs (hit i v) (passes, here, ok) = sym passes

  -- Every vocabulary that is not empty is indexed, and the index finds a text exactly where a search
  -- of the whole vocabulary from its start finds it first.
  pub index_vocab-find_token_n :
      0 < length vocab
      → (ix : Index) × (index_vocab vocab ≡ some ix)
        × ((text : List ℕ) → find_token_n ix vocab text ≡ linear_from 0 vocab text)
  unfolding index_vocab find_token_n
  index_vocab-find_token_n some_token =
      let n = length vocab in
      let (ix, made, h) = index_items-IsIndex hash_bytes [] vocab some_token in
      (
        ix,
        made,
        λ text.
            outcome-first ix text _ (select (has_text vocab text) (from 0 n)) _ (
              search-Ends ix.cap (home hash_bytes [] vocab ix.cap) (at ix.slot) (from 0 n)
                (has_text vocab text) (hash_bytes text % ix.cap) h.holds
                (omega (arith, length-from 0 n, h.wide, some_token)) (omega (arith, h.some_slot))
                (λ u same. ap (λ t. hash_bytes t % ix.cap) (list_eq→eq _ text same)))
            ∙ select-linear text [] vocab refl,
      )
