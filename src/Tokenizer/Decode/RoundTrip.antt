-- ===== src/Tokenizer/Decode/RoundTrip.antt =====
-- SentencePiece's marks, put in by the encoder and taken out again.
use etha_jhol.Common.{
  ℕ, zero, suc, Bool, true, false, ◌&&◌, List, [], ◌∷◌, ◌++◌, ◌==◌, ==_iff, if◌then◌else◌, length,
  ◌≡◌, ◌≤◌, refl, ap, ap₂, ◌∙◌, All, All-append, get_or, concat, map, inl, inr, Bool-cases, arith,
  sym, subst,
}
use etha_jhol.Tokenizer.Decode.{
  spaces_from, decode_spaces, space_mark, decode_token, begins_marked, without_prefix_space,
  decode_sequence,
}
use etha_jhol.Tokenizer.Encode.{Tokenizer, starts_with, normalize_from, normalize}
use etha_jhol.Tokenizer.Utf8.{utf8_put}

spaces_from-mark :
    (fuel : ℕ) (s : List ℕ)
    → spaces_from (suc fuel) (utf8_put 0x2581 ++ s) ≡ b' ' ∷ spaces_from fuel s
unfolding spaces_from utf8_put
spaces_from-mark fuel s = refl

spaces_from-plain :
    (fuel c : ℕ) (s : List ℕ)
    → (c == 0xe2) ≡ false
    → spaces_from (suc fuel) (c ∷ s) ≡ c ∷ spaces_from fuel s
unfolding spaces_from
spaces_from-plain fuel c s other = rw (spaces_from, other) refl

after_mark :
    (fuel : ℕ) (s text : List ℕ)
    → ((rest : ℕ) → length s ≤ rest → spaces_from rest s ≡ text)
    → length (utf8_put 0x2581 ++ s) ≤ fuel
    → spaces_from fuel (utf8_put 0x2581 ++ s) ≡ b' ' ∷ text
unfolding utf8_put
after_mark zero s text decoded h = absurd (omega arith)
after_mark (suc fuel) s text decoded h =
    spaces_from-mark fuel s ∙ ap (λ r. b' ' ∷ r) (decoded fuel (omega arith))

after_plain :
    (fuel c : ℕ) (s text : List ℕ)
    → (c == 0xe2) ≡ false
    → ((rest : ℕ) → length s ≤ rest → spaces_from rest s ≡ text)
    → length (c ∷ s) ≤ fuel
    → spaces_from fuel (c ∷ s) ≡ c ∷ text
after_plain zero c s text other decoded h = absurd (omega arith)
after_plain (suc fuel) c s text other decoded h =
    spaces_from-plain fuel c s other ∙ ap (λ r. c ∷ r) (decoded fuel (omega arith))

-- A text with a mark in place of every space.
abbrev pub marks : List ℕ → List ℕ
marks [] = []
marks (c ∷ s) = if c == b' ' then space_mark ++ marks s else c ∷ marks s

-- No byte with which a mark could begin.
abbrev pub IsPlain : List ℕ → Type 0
IsPlain s = All (λ c. (c == 0xe2) ≡ false) s

-- The marked form of a text that is not empty.
abbrev pub IsWhole : List ℕ → Type 0
IsWhole piece = (c : ℕ) × (t : List ℕ) × IsPlain (c ∷ t) × (piece ≡ marks (c ∷ t))

marks-append : (s t : List ℕ) → marks (s ++ t) ≡ marks s ++ marks t
marks-append [] t = refl
marks-append (c ∷ s) t = elim (Bool-cases (c == b' ')) [
  | inl space ↦ rw space (ap (λ r. space_mark ++ r) (marks-append s t))
  | inr other ↦ rw other (ap (λ r. c ∷ r) (marks-append s t))
]

decode_token-spaces :
    (vocab : List (List ℕ)) (id : ℕ)
    → decode_token false vocab id ≡ decode_spaces (get_or vocab id [])
unfolding decode_token decode_spaces
decode_token-spaces [] id = refl
decode_token-spaces (x ∷ vocab) zero = refl
decode_token-spaces (x ∷ vocab) (suc id) = decode_token-spaces vocab id

begins_marked-text :
    (vocab : List (List ℕ)) (id : ℕ) (ids : List ℕ)
    → begins_marked vocab (id ∷ ids) ≡ starts_with (get_or vocab id []) space_mark
begins_marked-text [] id ids = refl
begins_marked-text (x ∷ vocab) zero ids = refl
begins_marked-text (x ∷ vocab) (suc id) ids = begins_marked-text vocab id ids

module _ (tok : Tokenizer) (all_spaces : tok.remove_extra_ws ≡ false) where
  normalize_from-space :
      (prev_space : Bool) (text : List ℕ)
      → normalize_from tok prev_space (b' ' ∷ text)
        ≡ utf8_put 0x2581 ++ normalize_from tok true text
  unfolding normalize_from
  normalize_from-space prev_space text =
      ap
        (λ remove.
          if remove && prev_space
          then normalize_from tok prev_space text
          else utf8_put 0x2581 ++ normalize_from tok true text)
        all_spaces

  normalize_from-plain :
      (prev_space : Bool) (c : ℕ) (text : List ℕ)
      → (c == b' ') ≡ false
      → normalize_from tok prev_space (c ∷ text) ≡ c ∷ normalize_from tok false text
  unfolding normalize_from
  normalize_from-plain prev_space c text other = rw (normalize_from, other) refl

  normalize_from-marks :
      (prev_space : Bool) (text : List ℕ) → normalize_from tok prev_space text ≡ marks text
  unfolding normalize_from utf8_put
  normalize_from-marks prev_space [] = refl
  normalize_from-marks prev_space (c ∷ text) = elim (Bool-cases (c == b' ')) [
    | inl space ↦
        ap (λ q. normalize_from tok prev_space (q ∷ text)) ((==_iff c b' ').0 space)
        ∙ normalize_from-space prev_space text
        ∙ ap (λ s. space_mark ++ s) (normalize_from-marks true text)
        ∙ ap (λ q. marks (q ∷ text)) (sym ((==_iff c b' ').0 space))
    | inr other ↦
        normalize_from-plain prev_space c text other
        ∙ ap (λ s. c ∷ s) (normalize_from-marks false text)
        ∙ rw other refl
  ]

  spaces_from-nil :
      (fuel : ℕ) (prev_space : Bool) → spaces_from fuel (normalize_from tok prev_space []) ≡ []
  unfolding spaces_from normalize_from
  spaces_from-nil zero prev_space = refl
  spaces_from-nil (suc fuel) prev_space = refl

  spaces_from-normalize :
      (text : List ℕ) (fuel : ℕ) (prev_space : Bool)
      → All (λ c. (c == 0xe2) ≡ false) text
      → length (normalize_from tok prev_space text) ≤ fuel
      → spaces_from fuel (normalize_from tok prev_space text) ≡ text
  spaces_from-normalize [] fuel prev_space plain h = spaces_from-nil fuel prev_space
  spaces_from-normalize (c ∷ text) fuel prev_space (here, plain) h = elim (Bool-cases (c == b' ')) [
    | inl space ↦
        let at_space = (==_iff c b' ').0 space in
        let step =
          ap (λ q. normalize_from tok prev_space (q ∷ text)) at_space
          ∙ normalize_from-space prev_space text in
        ap (spaces_from fuel) step
        ∙ after_mark fuel (normalize_from tok true text) text
            (λ rest. spaces_from-normalize text rest true plain)
            (subst (λ s. length s ≤ fuel) step h)
        ∙ ap (λ q. q ∷ text) (sym at_space)
    | inr other ↦
        let step = normalize_from-plain prev_space c text other in
        ap (spaces_from fuel) step
        ∙ after_plain fuel c (normalize_from tok false text) text here
            (λ rest. spaces_from-normalize text rest false plain)
            (subst (λ s. length s ≤ fuel) step h)
  ]

  decode_spaces-marks : (text : List ℕ) → IsPlain text → decode_spaces (marks text) ≡ text
  unfolding decode_spaces
  decode_spaces-marks text plain =
      let same = normalize_from-marks true text in
      sym (ap (λ s. spaces_from (length s) s) same)
      ∙ spaces_from-normalize text (length (normalize_from tok true text)) true plain (omega arith)

  decode_token-whole :
      (vocab : List (List ℕ)) (id : ℕ) (t : List ℕ)
      → IsPlain t
      → get_or vocab id [] ≡ marks t
      → decode_token false vocab id ≡ t
  decode_token-whole vocab id t plain same =
      decode_token-spaces vocab id ∙ ap decode_spaces same ∙ decode_spaces-marks t plain

  -- Whole tokens, laid end to end, are the marked form of what they are decoded to.
  decode_token-marks :
      (vocab : List (List ℕ)) (ids : List ℕ)
      → All (λ id. IsWhole (get_or vocab id [])) ids
      → let bytes = concat (map (decode_token false vocab) ids) in
        IsPlain bytes × (concat (map (λ id. get_or vocab id []) ids) ≡ marks bytes)
  decode_token-marks vocab [] all = (tt, refl)
  decode_token-marks vocab (id ∷ ids) ((c, t, plain, same), all) =
      let (rest_plain, rest) = decode_token-marks vocab ids all in
      let more = concat (map (decode_token false vocab) ids) in
      let decoded = decode_token-whole vocab id (c ∷ t) plain same in
      (
        subst (λ d. IsPlain (d ++ more)) (sym decoded)
            (All-append (λ c. (c == 0xe2) ≡ false) (c ∷ t) more plain rest_plain),
        ap₂ ◌++◌ same rest
            ∙ sym (marks-append (c ∷ t) more)
            ∙ ap (λ d. marks (d ++ more)) (sym decoded),
      )

  -- Where the model adds the dummy prefix and keeps every space: a text without the byte 0xe2 comes back from
  -- `vg_tokenizer_decode_sequence`, however tokens divide its normalized form between them, each token in the
  -- vocabulary, not empty and made of marks of spaces and of bytes that are not 0xe2.
  pub decode_sequence-normalize :
      (vocab : List (List ℕ)) (ids : List ℕ) (text : List ℕ)
      → tok.add_dummy_prefix ≡ true
      → IsPlain text
      → All (λ id. IsWhole (get_or vocab id [])) ids
      → concat (map (λ id. get_or vocab id []) ids) ≡ normalize tok text
      → decode_sequence false vocab ids ≡ text
  unfolding decode_sequence normalize utf8_put
  decode_sequence-normalize vocab [] text prefix plain all spells =
      cc (rw (prefix, normalize) at spells)
  decode_sequence-normalize vocab (id ∷ ids) text prefix plain ((c, t, whole, same), all) spells =
      let (bytes_plain, marked) = decode_token-marks vocab (id ∷ ids) ((c, t, whole, same), all) in
      let bytes = concat (map (decode_token false vocab) (id ∷ ids)) in
      let normal : normalize tok text ≡ marks (b' ' ∷ text) =
        ap (λ b. (if b then utf8_put 0x2581 else []) ++ normalize_from tok true text) prefix
        ∙ ap (λ s. utf8_put 0x2581 ++ s) (normalize_from-marks true text) in
      let back : bytes ≡ b' ' ∷ text =
        sym (decode_spaces-marks bytes bytes_plain)
        ∙ ap decode_spaces (sym marked ∙ spells ∙ normal)
        ∙ decode_spaces-marks (b' ' ∷ text) (refl, plain) in
      let more = concat (map (decode_token false vocab) ids) in
      let at_start : c ∷ (t ++ more) ≡ b' ' ∷ text =
        ap (λ d. d ++ more) (sym (decode_token-whole vocab id (c ∷ t) whole same)) ∙ back in
      let space : c ≡ b' ' = cc in
      let begins : begins_marked vocab (id ∷ ids) ≡ true =
        begins_marked-text vocab id ids
        ∙ ap (λ s. starts_with s space_mark) (same ∙ ap (λ d. marks (d ∷ t)) space) in
      ap (λ b. without_prefix_space b bytes) begins ∙ ap (without_prefix_space true) back
