-- ===== src/Speculative/Bounds.antt =====
-- At any temperature: how many tokens a step writes, that each is a token of the vocabulary, and that they
-- are the draft's proposals up to the last.
use etha_jhol.Common.{
  ℕ, zero, suc, ◌+◌, ◌≤◌, ◌<◌, ◌≡◌, ◌⊎◌, refl, sym, ap, ◌∙◌, subst, arith, false, some, List, [],
  ◌∷◌, length, ◌==◌, ==_iff, ltb, if◌then◌else◌, inl, inr, Bool-cases, Option-cases, All, map, not,
  ◌||◌, get_or,
}
use etha_jhol.Common.Tests.{if_ind}
use etha_jhol.Common.Floats.{Floats}
use etha_jhol.Speculative.{
  Graph, Config, Outcome, write, argmax, dist_from_logits, draft_from, verify, clamped, rand_unit,
  acceptance, speculative_step, effective_temperature, seed, propose, replace,
}
use etha_jhol.Speculative.Draft.{length-draft_from}
use etha_jhol.Speculative.Draws.{sample_from-lt, sample_residual-lt, length-dist}
use etha_jhol.Speculative.Plain.{FillsLogits}
use etha_jhol.Speculative.Greedy.OneHot.{largest-eq-argmax, largest-lt-length}

-- The accepted tokens are proposals, from the first on, with at most one more token behind them.
abbrev pub Follows : List ℕ → List ℕ → Type 0
Follows proposals [] = Unit {0}
Follows [] (a ∷ more) = ⊥
Follows (p ∷ ps) (a ∷ more) = ((a ≡ p) × Follows ps more) ⊎ (more ≡ [])

-- `n` tokens at most, each of the vocabulary, which follow the proposals.
pub record IsWithin {S : Type 0} (n_vocab n : ℕ) (proposals : List ℕ) (o : Outcome S) : Type 0 where
  pub count : length o.accepted ≤ n
  pub tokens : All (λ a. a < n_vocab) o.accepted
  pub follows : Follows proposals o.accepted

module _ {F D S : Type 0} (fl : Floats F D) (draft_graph target_graph : Graph F S) (temp : F)
    (some_vocab : 0 < target_graph.n_vocab) (fills_draft : FillsLogits draft_graph)
    (fills : FillsLogits target_graph)
    (same_vocab : draft_graph.n_vocab ≡ target_graph.n_vocab) where
  open fl use {nought, lt, le}
  open target_graph use {n_vocab}

  argmax-lt : (xs : List F) → length xs ≡ n_vocab → argmax fl xs < n_vocab
  argmax-lt xs same =
      subst (λ k. argmax fl xs < k) same
        (subst (λ k. k < length xs) (largest-eq-argmax fl xs)
          (largest-lt-length fl xs (omega arith)))

  propose-lt :
      (logits : List F) (rng : ℕ)
      → length logits ≡ n_vocab
      → (propose fl draft_graph target_graph temp logits rng).0 < n_vocab
  unfolding propose
  propose-lt logits rng same = elim (Bool-cases (lt nought temp)) [
    | inl warm ↦
        rw warm
          (sample_from-lt fl n_vocab _ rng (length-dist fl n_vocab temp logits same) some_vocab)
    | inr cold ↦ rw cold (argmax-lt logits same)
  ]

  draft_from-tokens :
      (rounds feed pos : ℕ) (s : S) (rng : ℕ)
      → All
          (λ p. p.0 < n_vocab)
          (draft_from fl draft_graph target_graph temp rounds feed pos s rng).0
  unfolding draft_from
  draft_from-tokens zero feed pos s rng = tt
  draft_from-tokens (suc rounds) feed pos s rng =
      elim (Option-cases (draft_graph.decode s feed pos).0) [
        | inl failed ↦ rw (failed, draft_from) tt
        | inr (logits, got) ↦
            let step = propose fl draft_graph target_graph temp logits rng in
            let rest =
              draft_from-tokens rounds step.0 (pos + 1) (draft_graph.decode s feed pos).1 step.1 in
            rw (got, draft_from)
              (propose-lt logits rng (fills_draft s feed pos logits got ∙ same_vocab), rest)
      ]

  one-IsWithin :
      (token : ℕ) (proposals : List ℕ) (a : ℕ) (s : S) (rng : ℕ)
      → a < n_vocab
      → IsWithin n_vocab
          (suc (length proposals))
          (token ∷ proposals)
          (record { accepted = a ∷ []; state = s; rng = rng })
  one-IsWithin token proposals a s rng h = record {
    count = omega arith;
    tokens = (h, tt);
    follows = inr refl;
  }

  write-IsWithin :
      (token : ℕ) (proposals : List ℕ) (a : ℕ) (o : Outcome S)
      → a ≡ token
      → a < n_vocab
      → IsWithin n_vocab (length proposals) proposals o
      → IsWithin n_vocab (suc (length proposals)) (token ∷ proposals) (write a o)
  unfolding write
  write-IsWithin token proposals a o same h k = record {
    count = omega (arith, k.count);
    tokens = (h, k.tokens);
    follows = inl (same, k.follows);
  }

  abbrev tokens_of : List (ℕ × F) → List ℕ
  tokens_of ps = map (λ p. p.0) ps

  -- A round of the loop, with the decode's logits.
  verify-got :
      (token : ℕ) (q : F) (ps : List (ℕ × F)) (room feed pos : ℕ) (s : S) (rng : ℕ)
      → (logits : List F) → (target_graph.decode s feed pos).0 ≡ some logits
      → let s' = (target_graph.decode s feed pos).1 in
        let p_target = dist_from_logits fl n_vocab temp logits in
        let best = argmax fl p_target in
        let (u, rng') = rand_unit fl rng in
        verify fl draft_graph target_graph temp ((token, q) ∷ ps) (suc room) feed pos s rng ≡ (
          if le temp nought
          then (if token == best
              then write best
                  (verify fl draft_graph target_graph temp ps room best (pos + 1) s' rng)
              else record { accepted = best ∷ []; state = s'; rng = rng })
          else if le u
              (acceptance fl draft_graph target_graph temp (get_or p_target token nought) q)
          then write token (verify fl draft_graph target_graph temp ps room token (pos + 1) s' rng')
          else replace fl draft_graph target_graph temp p_target feed pos s' rng')
  unfolding verify
  verify-got token q ps room feed pos s rng logits got = rw (got, verify) refl

  replace-IsWithin :
      (token : ℕ) (proposals : List ℕ) (p_target : List F) (feed pos : ℕ) (s : S) (rng : ℕ)
      → length p_target ≡ n_vocab
      → IsWithin n_vocab
          (suc (length proposals))
          (token ∷ proposals)
          (replace fl draft_graph target_graph temp p_target feed pos s rng)
  unfolding replace
  replace-IsWithin token proposals p_target feed pos s rng full =
      one-IsWithin token proposals _ _ _
        (sample_residual-lt fl n_vocab _ p_target rng full some_vocab)

  verify-IsWithin :
      (ps : List (ℕ × F)) (room feed pos : ℕ) (s : S) (rng : ℕ)
      → All (λ p. p.0 < n_vocab) ps
      → IsWithin n_vocab
          (length (tokens_of ps))
          (tokens_of ps)
          (verify fl draft_graph target_graph temp ps room feed pos s rng)
  unfolding verify
  verify-IsWithin [] room feed pos s rng h = record {
    count = omega arith;
    tokens = tt;
    follows = tt;
  }
  verify-IsWithin (p ∷ ps) zero feed pos s rng h = record {
    count = omega arith;
    tokens = tt;
    follows = tt;
  }
  verify-IsWithin ((token, q) ∷ ps) (suc room) feed pos s rng (h, hs) =
      elim (Option-cases (target_graph.decode s feed pos).0) [
        | inl failed ↦
            rw (failed, verify) (record { count = omega arith; tokens = tt; follows = tt })
        | inr (logits, got) ↦
            let full = length-dist fl n_vocab temp logits (fills s feed pos logits got) in
            let best = argmax fl (dist_from_logits fl n_vocab temp logits) in
            let bounded = argmax-lt (dist_from_logits fl n_vocab temp logits) full in
            let s' = (target_graph.decode s feed pos).1 in
            let (u, rng') = rand_unit fl rng in
            let Within =
              IsWithin {S = S} n_vocab (suc (length (tokens_of ps))) (token ∷ tokens_of ps) in
            subst Within (sym (verify-got token q ps room feed pos s rng logits got)) (
              if_ind Within (le temp nought)
                (λ cold.
                  if_ind Within (token == best)
                    (λ same.
                      write-IsWithin token (tokens_of ps) best _ (sym ((==_iff token best).0 same))
                        bounded (verify-IsWithin ps room best (pos + 1) s' rng hs))
                    (λ other. one-IsWithin token (tokens_of ps) best s' rng bounded))
                (λ warm.
                  if_ind Within _
                    (λ passed.
                      write-IsWithin token (tokens_of ps) token _ refl h
                        (verify-IsWithin ps room token (pos + 1) s' rng' hs))
                    (λ rejected. replace-IsWithin token (tokens_of ps) _ feed pos s' rng' full)))
      ]

length-tokens : {F : Type 0} (ps : List (ℕ × F)) → length (map (λ p. p.0) ps) ≡ length ps
length-tokens [] = refl
length-tokens (p ∷ ps) = ap suc (length-tokens ps)

guard-same : (a b n : ℕ) → (ltb n 1 || not (a == b)) ≡ false → a ≡ b
guard-same a b n h = ground arith

module _ {F D S : Type 0} (fl : Floats F D) (draft_graph target_graph : Graph F S)
    (some_vocab : 0 < target_graph.n_vocab) (fills_draft : FillsLogits draft_graph)
    (fills : FillsLogits target_graph) (cfg : Config F) where
  -- A step writes no more tokens than its clamped number of proposals. Each is a token of the
  -- vocabulary, and all but the last are the draft's proposals, in order.
  pub speculative_step-IsWithin :
      (input_token kv_pos max_accepted : ℕ) (s : S)
      → let temp = effective_temperature fl draft_graph target_graph cfg in
        let rounds = clamped fl cfg.n_draft max_accepted in
        let drafted =
          draft_from fl draft_graph target_graph temp rounds input_token kv_pos s
            (seed fl draft_graph target_graph cfg) in
        IsWithin target_graph.n_vocab rounds
          (map (λ p. p.0) drafted.0)
          (speculative_step fl draft_graph target_graph cfg input_token kv_pos max_accepted s)
  unfolding speculative_step
  speculative_step-IsWithin input_token kv_pos max_accepted s =
      let temp = effective_temperature fl draft_graph target_graph cfg in
      let rounds = clamped fl cfg.n_draft max_accepted in
      let drafted =
        draft_from fl draft_graph target_graph temp rounds input_token kv_pos s
          (seed fl draft_graph target_graph cfg) in
      let few =
        length-draft_from fl draft_graph target_graph temp rounds input_token kv_pos s
          (seed fl draft_graph target_graph cfg) in
      if_ind (IsWithin {S = S} target_graph.n_vocab rounds (map (λ p. p.0) drafted.0)) _
        (λ refused. record { count = omega arith; tokens = tt; follows = tt })
        (λ passed.
          let same = guard-same draft_graph.n_vocab target_graph.n_vocab max_accepted passed in
          let within =
            verify-IsWithin fl draft_graph target_graph temp some_vocab fills_draft fills same
              drafted.0 max_accepted input_token kv_pos drafted.1 drafted.2
              (draft_from-tokens fl draft_graph target_graph temp some_vocab fills_draft fills same
                rounds input_token kv_pos s (seed fl draft_graph target_graph cfg)) in
          record {
            count = omega (arith, within.count, length-tokens drafted.0, few);
            tokens = within.tokens;
            follows = within.follows;
          })
