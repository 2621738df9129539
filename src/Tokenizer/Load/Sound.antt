-- ===== src/Tokenizer/Load/Sound.antt =====
-- What `vg_tokenizer_load` gives for any metadata.
use etha_jhol.Common.{
  ℕ, ◌+◌, ◌^◌, ◌≤◌, ◌<◌, ◌≡◌, ◌⊎◌, inl, inr, refl, sym, ap, ◌∙◌, subst, arith, true, false, ◌&&◌,
  ◌||◌, Option, none, some, List, [], ◌∷◌, ◌++◌, length, length-append, append_assoc, get_or, leb,
  ◌==◌, ==_iff, list_eq, Bool-cases, Option-cases, All,
}
use etha_jhol.Common.Result.{format, ok, fail}
use etha_jhol.Common.Text.{ascii}
use etha_jhol.Gguf.Index.{linear_from}
use etha_jhol.Gguf.Reader.{c_string}
use etha_jhol.Tokenizer.Array.{read_tokens, entries_from}
use etha_jhol.Tokenizer.Load.{
  Loaded, tokenizer_of, long_at, skip_commas, closes, added_from, read_vocab, id_of, bos_policy,
  text_of, load_with, load,
}
use etha_jhol.Tokenizer.Merges.{Merge, no_merge, read_merges}
use etha_jhol.Tokenizer.Merges.Finds.{rule_from, merges_from-ranked, index_merges-find_merge}
use etha_jhol.Tokenizer.Vocab.{Index, index_vocab, find_token_n}
use etha_jhol.Tokenizer.Vocab.Filled.{get_or-append}
use etha_jhol.Tokenizer.Vocab.Finds.{index_vocab-find_token_n}

-- An added token is the text of its id, and has two bytes or more.
abbrev pub IsAdded : List (List ℕ) → List ℕ × ℕ → Type 0
IsAdded vocab (text, id) =
    (id < length vocab) × (c_string (get_or vocab id []) ≡ text) × (2 ≤ length text)

-- A tokenizer whose lookups answer as searches of the whole lists do, that puts no negative id in front of a
-- text, and whose added tokens are tokens.
pub record IsSound (t : Loaded) : Type 0 where
  pub finds : (text : List ℕ) → (tokenizer_of t).find text ≡ linear_from 0 t.vocab text
  pub ranks : (a b : List ℕ) → (tokenizer_of t).rank a b ≡ rule_from 0 t.merges a b
  pub bos : t.add_bos ≡ true → t.bos_id < 2 ^ 31
  pub added : All (IsAdded t.vocab) t.added

added_from-IsAdded :
    (vocab pre texts : List (List ℕ)) (q : List ℕ)
    → pre ++ texts ≡ vocab
    → All (IsAdded vocab) (added_from (length pre) texts q)
unfolding added_from
added_from-IsAdded vocab pre [] q whole = tt
added_from-IsAdded vocab pre (text ∷ texts) q whole =
    let at_number = skip_commas q in
    let ty = (long_at at_number).0 in
    let here : get_or vocab (length pre) [] ≡ text =
      subst (λ v. get_or v (length pre) [] ≡ text) whole (get_or-append [] pre text texts) in
    let inside : length pre < length vocab =
      omega (arith, length-append pre (text ∷ texts), ap length whole) in
    let size : length (pre ++ text ∷ []) ≡ length pre + 1 =
      omega (arith, length-append pre (text ∷ [])) in
    let rest =
      subst (λ n. All (IsAdded vocab) (added_from n texts (long_at at_number).1)) size
        (added_from-IsAdded vocab (pre ++ text ∷ []) texts (long_at at_number).1
          (append_assoc pre (text ∷ []) texts ∙ whole)) in
    elim (Bool-cases ((length q == 0) || (closes q || closes at_number))) [
      | inl over ↦ rw (over, added_from) tt
      | inr on ↦ elim (Bool-cases (((ty == 3) || (ty == 4)) && leb 2 (length (c_string text)))) [
        | inl special ↦
            rw (on, added_from) (rw special ((inside, ap c_string here, ground arith), rest))
        | inr plain ↦ rw (on, added_from) (rw plain rest)
      ]
    ]

rule_from-lt :
    (i : ℕ) (ms : List Merge) (a b : List ℕ) (mi : ℕ)
    → rule_from i ms a b ≡ some mi
    → mi < i + length ms
unfolding rule_from
rule_from-lt i [] a b mi h = cc
rule_from-lt i (m ∷ ms) a b mi h = elim (Bool-cases (list_eq m.a a && list_eq m.b b)) [
  | inl same ↦ let e : i ≡ mi = cc (rw (same, rule_from) at h) in omega (arith, e)
  | inr other ↦ omega (arith, rule_from-lt (i + 1) ms a b mi (rw (other, rule_from) at h))
]

-- The rank of the rule that the loop gives.
abbrev rank_at : List Merge → Option (Option ℕ) → Option ℕ
rank_at ms r = elim r [
  | none ↦ none
  | some best ↦ elim best [ none ↦ none | some mi ↦ some (get_or ms mi no_merge).rank ]
]

rank_at-rule_from :
    (text : List ℕ) (found : Option ℕ)
    → ((mi : ℕ) → found ≡ some mi → mi < length (read_merges text))
    → rank_at (read_merges text) (some found) ≡ found
unfolding read_merges
rank_at-rule_from text none lt = refl
rank_at-rule_from text (some mi) lt =
    ap some (merges_from-ranked 0 (entries_from (length text) text) mi (lt mi refl) ∙ omega arith)

abbrev or_empty : Option (List ℕ) → List ℕ
or_empty o = elim o [ none ↦ [] | some s ↦ s ]

no_tokens : length (read_vocab []) ≡ 0
unfolding read_vocab read_tokens entries_from
no_tokens = refl

module _ (meta : List ℕ → Option (List ℕ)) where
  bos_policy-id_of :
      bos_policy meta ≡ true → id_of meta (ascii "tokenizer.ggml.bos_token_id") < 2 ^ 31
  unfolding bos_policy
  bos_policy-id_of adds =
      elim (Bool-cases (leb (2 ^ 31) (id_of meta (ascii "tokenizer.ggml.bos_token_id")))) [
        | inl negative ↦ cc (rw (negative, bos_policy) at adds)
        | inr usable ↦ ground arith
      ]

  load_with-IsSound :
      (vocab : List (List ℕ)) (ix : Index)
      → ((text : List ℕ) → find_token_n ix vocab text ≡ linear_from 0 vocab text)
      → (t : Loaded) × (load_with meta vocab ix ≡ some (ok t)) × (t.vocab ≡ vocab) × IsSound t
  unfolding load_with tokenizer_of
  load_with-IsSound vocab ix finds =
      let text = text_of meta (ascii "tokenizer.ggml.merges") in
      let (merge_ix, made, lookups) = index_merges-find_merge text in
      rw (made, load_with)
        (
          _,
          refl,
          refl,
          record {
            finds = finds;
            ranks = λ a b.
                ap (rank_at (read_merges text)) (lookups a b)
                ∙ rank_at-rule_from text (rule_from 0 (read_merges text) a b)
                    (λ mi e. omega (arith, rule_from-lt 0 (read_merges text) a b mi e));
            bos = bos_policy-id_of;
            added = added_from-IsAdded vocab [] vocab _ refl;
          },
        )

  load-missing : meta (ascii "tokenizer.ggml.tokens") ≡ none → load meta ≡ some (fail format)
  unfolding load
  load-missing missing = rw (missing, load) refl

  load-empty :
      (tokens : List ℕ)
      → meta (ascii "tokenizer.ggml.tokens") ≡ some tokens
      → (length (read_vocab tokens) == 0) ≡ true
      → load meta ≡ some (fail format)
  unfolding load
  load-empty tokens there empty = rw (there, load) (rw empty refl)

  load-full :
      (tokens : List ℕ) (ix : Index)
      → meta (ascii "tokenizer.ggml.tokens") ≡ some tokens
      → (length (read_vocab tokens) == 0) ≡ false
      → index_vocab (read_vocab tokens) ≡ some ix
      → load meta ≡ load_with meta (read_vocab tokens) ix
  unfolding load
  load-full tokens ix there full made = rw (there, load) (rw full (rw made refl))

  -- Whatever the metadata say: where they have no token, loading fails as a malformed file does, and else
  -- it succeeds with the tokens read, each up to its first zero byte; then a lookup of a token and one of a merge rule answer as a search
  -- of the whole list from its start does, a BOS token is added only where its id is not negative, and
  -- each added token is the text of its id, of two bytes or more.
  pub load-IsSound :
      ((length (read_vocab (text_of meta (ascii "tokenizer.ggml.tokens"))) ≡ 0)
        × (load meta ≡ some (fail format)))
      ⊎ ((t : Loaded) × (load meta ≡ some (ok t))
          × (t.vocab ≡ read_vocab (text_of meta (ascii "tokenizer.ggml.tokens")))
          × (0 < length t.vocab)
          × IsSound t)
  load-IsSound = elim (Option-cases (meta (ascii "tokenizer.ggml.tokens"))) [
    | inl missing ↦
        inl (ap (λ o. length (read_vocab (or_empty o))) missing ∙ no_tokens, load-missing missing)
    | inr (tokens, there) ↦
        let same : text_of meta (ascii "tokenizer.ggml.tokens") ≡ tokens = ap or_empty there in
        elim (Bool-cases (length (read_vocab tokens) == 0)) [
          | inl empty ↦ inl (
            ap (λ s. length (read_vocab s)) same ∙ (==_iff _ 0).0 empty,
            load-empty tokens there empty,
          )
          | inr full ↦
              let vocab = read_vocab tokens in
              let some_token : 0 < length vocab = ground arith in
              let (ix, made, finds) = index_vocab-find_token_n vocab some_token in
              let (t, loaded, whole, sound) = load_with-IsSound vocab ix finds in
              inr (
                t,
                load-full tokens ix there full made ∙ loaded,
                whole ∙ ap read_vocab (sym same),
                subst (λ v. 0 < length v) (sym whole) some_token,
                sound,
              )
        ]
  ]
