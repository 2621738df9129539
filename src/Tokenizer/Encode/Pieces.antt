-- ===== src/Tokenizer/Encode/Pieces.antt =====
-- The longest matches of SentencePiece.
use etha_jhol.Common.{
  ℕ, zero, suc, ◌+◌, ◌-◌, min, ◌<◌, ◌≤◌, ◌≡◌, ◌⊎◌, inl, inr, refl, sym, subst, arith, Option, none,
  some, List, [], ◌∷◌, ◌++◌, length, take, drop, take-append-drop, length-take, length-drop, ge→ltb,
  lt→ltb, Option-cases,
}
use native.Mathlib.Decide.{ℕ_discrete}
use etha_jhol.Tokenizer.Encode.{Tokenizer, need_cp, match_from, next_match, encode_pieces}

need_cp-pos : (c : ℕ) (s : List ℕ) → 0 < need_cp (c ∷ s)
need_cp-pos c s = ground arith

need_cp-lead : (c : ℕ) (s : List ℕ) → 0xc0 ≤ c → 1 < need_cp (c ∷ s)
need_cp-lead c s lead = ground arith

module _ (tok : Tokenizer) where
  -- Of the lengths from `low` to below `high`, `len` is the longest at which the text begins with a
  -- token, and `id` is that token; `none` where there is no such length.
  abbrev pub Longest : List ℕ → ℕ → ℕ → Option (ℕ × ℕ) → Type 0
  Longest s low high none = (k : ℕ) → low ≤ k → k < high → tok.find (take k s) ≡ none
  Longest s low high (some (id, len)) =
      (low ≤ len)
      × (len < high)
      × (tok.find (take len s) ≡ some id)
      × ((k : ℕ) → len < k → k < high → tok.find (take k s) ≡ none)

  Longest-keep :
      (s : List ℕ) (low high : ℕ) (best : Option (ℕ × ℕ))
      → tok.find (take high s) ≡ none
      → Longest s low high best
      → Longest s low (high + 1) best
  Longest-keep s low high none missing h = λ k above inside. elim (ℕ_discrete k high) [
    | yes same ↦ rw same missing
    | no other ↦ h k above (omega arith)
  ]
  Longest-keep s low high (some (id, len)) missing (above, below, found, longer) = (
    above,
    omega arith,
    found,
    λ k more inside. elim (ℕ_discrete k high) [
      | yes same ↦ rw same missing
      | no other ↦ longer k more (omega arith)
    ],
  )

  Longest-more :
      (s : List ℕ) (low high : ℕ) (best : Option (ℕ × ℕ))
      → low ≤ high
      → Longest s low high best
      → Longest s low
          (high + 1)
          (elim (tok.find (take high s)) [ none ↦ best | some id ↦ some (id, high) ])
  Longest-more s low high best below h = elim (Option-cases (tok.find (take high s))) [
    | inl missing ↦ rw missing (Longest-keep s low high best missing h)
    | inr (id, found) ↦ rw found (below, omega arith, found, λ k above inside. absurd (omega arith))
  ]

  match_from-Longest :
      (left low len : ℕ) (s : List ℕ) (best : Option (ℕ × ℕ))
      → low ≤ len
      → Longest s low len best
      → Longest s low (len + left) (match_from tok left len s best)
  unfolding match_from
  match_from-Longest zero low len s best below h = subst (λ n. Longest s low n best) (omega arith) h
  match_from-Longest (suc left) low len s best below h =
      subst (λ n. Longest s low n (match_from tok (suc left) len s best)) {x = len + 1 + left}
        (omega arith)
        (match_from-Longest left low (len + 1) s
          (elim (tok.find (take len s)) [ none ↦ best | some id ↦ some (id, len) ]) (omega arith)
          (Longest-more s low len best below h))

  -- A match is at most 511 bytes long, and inside the text.
  abbrev pub limit : List ℕ → ℕ
  limit s = min (length s) 511 + 1

  -- The next match: the longest token of at least the announced length, or, where there is none, the id
  -- 0 for the announced length.
  abbrev pub IsMatch : List ℕ → ℕ × ℕ → Type 0
  IsMatch s (id, len) =
      Longest s (need_cp s) (limit s) (some (id, len))
      ⊎ (Longest s (need_cp s) (limit s) none × (id ≡ 0) × (len ≡ need_cp s))

  Longest-limit :
      (s : List ℕ) (low stop : ℕ) (best : Option (ℕ × ℕ))
      → Longest s low (low + (stop - low)) best
      → Longest s low stop best
  Longest-limit s low stop none h = λ k above inside. h k above (omega arith)
  Longest-limit s low stop (some (id, len)) (above, below, found, longer) =
      (above, omega arith, found, λ k more inside. longer k more (omega arith))

  next_match-IsMatch : (s : List ℕ) → IsMatch s (next_match tok s)
  unfolding next_match
  next_match-IsMatch s =
      let low = need_cp s in
      let longest = Longest-limit s low (limit s) (match_from tok (limit s - low) low s none) (
        match_from-Longest (limit s - low) low low s none (omega arith)
          (λ k above inside. absurd (omega arith))) in
      elim (Option-cases (match_from tok (limit s - low) low s none)) [
        | inl e ↦ rw (next_match, e) (inr (subst (Longest s low (limit s)) e longest, refl, refl))
        | inr ((id, len), e) ↦ rw (next_match, e) (inl (subst (Longest s low (limit s)) e longest))
      ]

  -- No lead byte of a longer sequence stands closer to the end than it announces.
  abbrev pub IsComplete : List ℕ → Type 0
  IsComplete [] = Unit
  IsComplete (c ∷ s) = (need_cp (c ∷ s) ≤ length (c ∷ s)) × IsComplete s

  IsComplete-drop : (n : ℕ) (s : List ℕ) → IsComplete s → IsComplete (drop n s)
  IsComplete-drop zero s h = h
  IsComplete-drop (suc n) [] h = tt
  IsComplete-drop (suc n) (c ∷ s) (here, rest) = IsComplete-drop n s rest

  -- The ids stand, in order, for pieces of the text, each the longest match at its place.
  abbrev pub Covers : List ℕ → List ℕ → Type 0
  Covers [] s = s ≡ []
  Covers (id ∷ ids) s =
      (piece : List ℕ) × (rest : List ℕ) × (s ≡ piece ++ rest)
      × (0 < length piece)
      × IsMatch s (id, length piece)
      × Covers ids rest

  -- A match is not empty, and ends inside a text that is complete.
  IsMatch-inside :
      (c : ℕ) (s : List ℕ) (id len : ℕ)
      → IsComplete (c ∷ s)
      → IsMatch (c ∷ s) (id, len)
      → (0 < len) × (len ≤ length (c ∷ s))
  IsMatch-inside c s id len (here, rest) (inl (above, below, found, longer)) =
      (omega (arith, need_cp-pos c s), omega arith)
  IsMatch-inside c s id len (here, rest) (inr (missing, zero_id, same)) =
      (omega (arith, need_cp-pos c s), omega (arith, here))

  -- Of a text in which no lead byte stands closer to the end than the length it announces, the loop
  -- covers every byte: it ends within as many rounds as there are bytes, and each id stands for the
  -- longest token at its place among those of at least the length that the lead byte there announces and of at
  -- most 511 bytes, or is 0, for the announced length, where there is no such token.
  pub encode_pieces-Covers :
      (fuel : ℕ) (s : List ℕ)
      → length s ≤ fuel
      → IsComplete s
      → (ids : List ℕ) × (encode_pieces tok fuel s ≡ some ids) × Covers ids s
  unfolding encode_pieces
  encode_pieces-Covers zero [] h complete = ([], refl, refl)
  encode_pieces-Covers zero (c ∷ s) h complete = absurd (omega arith)
  encode_pieces-Covers (suc fuel) [] h complete = ([], refl, refl)
  encode_pieces-Covers (suc fuel) (c ∷ s) h complete =
      let hit = next_match tok (c ∷ s) in
      let match = next_match-IsMatch (c ∷ s) in
      let (some_byte, inside) = IsMatch-inside c s hit.0 hit.1 complete match in
      let here = take hit.1 (c ∷ s) in
      let size : length here ≡ hit.1 = omega (arith, length-take hit.1 (c ∷ s), inside) in
      let (ids, run, covers) =
        encode_pieces-Covers fuel (drop hit.1 (c ∷ s))
          (omega (arith, length-drop hit.1 (c ∷ s), some_byte, h))
          (IsComplete-drop hit.1 (c ∷ s) complete) in
      (
        hit.0 ∷ ids,
        rw (encode_pieces, ge→ltb (length (c ∷ s)) hit.1 inside, run) refl,
        (
          here,
          drop hit.1 (c ∷ s),
          sym (take-append-drop hit.1 (c ∷ s)),
          omega (arith, size, some_byte),
          subst (λ n. IsMatch (c ∷ s) (hit.0, n)) (sym size) match,
          covers,
        ),
      )

  match-long : (c : ℕ) (hit : ℕ × ℕ) → 0xc0 ≤ c → IsMatch (c ∷ []) hit → 1 < hit.1
  match-long c hit lead (inl (above, below, found, longer)) =
      omega (arith, need_cp-lead c [] lead, above)
  match-long c hit lead (inr (missing, zero_id, same)) = omega (arith, need_cp-lead c [] lead, same)

  -- Where a lead byte of a longer sequence is the last byte, the loop steps behind the end.
  pub encode_pieces-truncated :
      (fuel c : ℕ) → 0xc0 ≤ c → encode_pieces tok (suc fuel) (c ∷ []) ≡ none
  unfolding encode_pieces
  encode_pieces-truncated fuel c lead =
      rw
        (
          encode_pieces,
          lt→ltb 1 (next_match tok (c ∷ [])).1
              (match-long c (next_match tok (c ∷ [])) lead (next_match-IsMatch (c ∷ []))),
        )
        refl
