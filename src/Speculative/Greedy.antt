-- ===== src/Speculative/Greedy.antt =====
-- At temperature 0 a speculative step gives what plain decoding with the target model gives.
pub mod OneHot
pub mod Rounds
pub mod Same
use etha_jhol.Common.{
  ℕ, zero, suc, ◌+◌, ◌≤◌, ◌<◌, min, ◌≡◌, refl, sym, ap, subst, ◌∙◌, arith, Bool, true, false,
  Option, none, some, List, [], ◌∷◌, length, ◌==◌, ltb, if◌then◌else◌, inl, inr, Bool-cases, ge→ltb,
  ==_iff, Option-cases, not, ◌||◌,
}
use etha_jhol.Common.Floats.{Floats, IsOrdered}
use etha_jhol.Speculative.{
  Graph, Config, Outcome, write, argmax, largest, dist_from_logits, draft_from, propose, verify,
  clamped, speculative_step, effective_temperature, seed,
}
use etha_jhol.Speculative.Draft.{length-draft_from, length-draft_from_first}
use etha_jhol.Speculative.Plain.{FillsLogits, plain, IsPlain, IsApart, plain-got, plain-failed}
use etha_jhol.Speculative.Greedy.Rounds.{verify-got, speculative_step-runs}

module _ {F D : Type 0} (fl : Floats F D) where
  clamped_pos : (n_draft max_accepted : ℕ) → 0 < max_accepted → 1 ≤ clamped fl n_draft max_accepted
  unfolding clamped
  clamped_pos n_draft max_accepted room = ground arith

  module _ {S T : Type 0} (draft_graph target_graph : Graph F S) (graph : Graph F T) (view : S → T)
      (apart : IsApart fl draft_graph target_graph graph view) (ordered : IsOrdered fl)
      (some_vocab : 0 < target_graph.n_vocab) (fills : FillsLogits target_graph) where
    open fl use {nought}

    write-IsPlain :
        (n feed pos : ℕ) (s : S) (logits : List F) (o : Outcome S)
        → (target_graph.decode s feed pos).0 ≡ some logits
        → IsPlain fl graph view n
            (largest fl logits)
            (pos + 1)
            (view (target_graph.decode s feed pos).1)
            o
        → IsPlain fl graph view (suc n) feed pos (view s) (write (largest fl logits) o)
    unfolding write
    write-IsPlain n feed pos s logits o got h =
        let step =
          plain-got fl graph n feed pos (view s) logits (sym (apart.logits s feed pos) ∙ got)
          ∙ ap
              (λ t.
                let rest = plain fl graph n (largest fl logits) (pos + 1) t in
                (largest fl logits ∷ rest.0, rest.1))
              (sym (apart.target s feed pos)) in
        record {
          tokens = ap (largest fl logits ∷◌) h.tokens ∙ sym (ap (λ r. r.0) step);
          state = h.state ∙ sym (ap (λ r. r.1) step);
        }

    failed-IsPlain :
        (token : ℕ) (q : F) (ps : List (ℕ × F)) (room feed pos : ℕ) (s : S) (rng : ℕ)
        → (target_graph.decode s feed pos).0 ≡ none
        → IsPlain fl graph view 1 feed pos
            (view s)
            (verify fl draft_graph target_graph nought ((token, q) ∷ ps) (suc room) feed pos s rng)
    unfolding verify
    failed-IsPlain token q ps room feed pos s rng failed =
        let step =
          plain-failed fl graph feed pos (view s) (sym (apart.logits s feed pos) ∙ failed) in
        rw (failed, verify)
          (record {
            tokens = sym (ap (λ r. r.0) step);
            state = apart.target s feed pos ∙ sym (ap (λ r. r.1) step);
          })

    verify-IsPlain :
        (ps : List (ℕ × F)) (room feed pos : ℕ) (s : S) (rng : ℕ)
        → (n : ℕ) × (n ≤ length ps)
          × (n ≤ room)
          × (min (length ps) (min room 1) ≤ n)
          × IsPlain fl graph view n feed pos
              (view s)
              (verify fl draft_graph target_graph nought ps room feed pos s rng)
    unfolding verify plain
    verify-IsPlain [] room feed pos s rng =
        (0, omega arith, omega arith, omega arith, record { tokens = refl; state = refl })
    verify-IsPlain (p ∷ ps) zero feed pos s rng =
        (0, omega arith, omega arith, omega arith, record { tokens = refl; state = refl })
    verify-IsPlain ((token, q) ∷ ps) (suc room) feed pos s rng =
        elim (Option-cases (target_graph.decode s feed pos).0) [
          | inl failed ↦ (
            1,
            omega arith,
            omega arith,
            omega arith,
            failed-IsPlain token q ps room feed pos s rng failed,
          )
          | inr (logits, got) ↦
              let best = largest fl logits in
              let s' = (target_graph.decode s feed pos).1 in
              let step =
                verify-got fl draft_graph target_graph ordered some_vocab fills token q ps room feed
                  pos s rng logits got in
              elim (Bool-cases (token == best)) [
                | inl same ↦
                    let (n, few, fits, enough, h) = verify-IsPlain ps room best (pos + 1) s' rng in
                    (
                      suc n,
                      omega arith,
                      omega arith,
                      omega arith,
                      subst (IsPlain fl graph view (suc n) feed pos (view s))
                          (sym (rw same at step)) (write-IsPlain n feed pos s logits _ got h),
                    )
                | inr other ↦ (
                  1,
                  omega arith,
                  omega arith,
                  omega arith,
                  subst (IsPlain fl graph view 1 feed pos (view s)) (sym (rw other at step)) (
                      write-IsPlain 0 feed pos s logits
                        (record { accepted = []; state = s'; rng = rng }) got
                        (record { tokens = refl; state = refl })),
                )
              ]
        ]

    -- Drafting leaves the target alone.
    draft_from-view :
        (rounds feed pos : ℕ) (s : S) (rng : ℕ)
        → view (draft_from fl draft_graph target_graph nought rounds feed pos s rng).1 ≡ view s
    unfolding draft_from
    draft_from-view zero feed pos s rng = refl
    draft_from-view (suc rounds) feed pos s rng =
        elim (Option-cases (draft_graph.decode s feed pos).0) [
          | inl failed ↦ rw (failed, draft_from) (apart.draft s feed pos)
          | inr (logits, got) ↦
              let step = propose fl draft_graph target_graph nought logits rng in
              rw (got, draft_from)
                (draft_from-view rounds step.0 (pos + 1) (draft_graph.decode s feed pos).1 step.1
                  ∙ apart.draft s feed pos)
        ]

    -- At temperature 0, over floats that order 0 and 1, with two graphs over vocabularies of one size that are not
    -- empty, where the target gives a logit for each token and decodes on its own part of the state, and the
    -- draft leaves that part alone: a step that has room for a token and whose first
    -- draft succeeds gives the tokens and leaves the target graph of n rounds of plain decoding with the
    -- target model, which end early where its decode fails, for an n that is at least 1 and at most the
    -- clamped number of proposals.
    pub speculative_step-IsPlain :
        (cfg : Config F) (input_token kv_pos max_accepted : ℕ) (s : S) (first : List F)
        → fl.lt nought cfg.temperature ≡ false
        → 0 < max_accepted
        → draft_graph.n_vocab ≡ target_graph.n_vocab
        → (draft_graph.decode s input_token kv_pos).0 ≡ some first
        → (n : ℕ) × (1 ≤ n)
          × (n ≤ clamped fl cfg.n_draft max_accepted)
          × IsPlain fl graph view n input_token kv_pos
              (view s)
              (speculative_step fl draft_graph target_graph cfg input_token kv_pos max_accepted s)
    speculative_step-IsPlain cfg input_token kv_pos max_accepted s first cold room same drafted =
        let temp = effective_temperature fl draft_graph target_graph cfg in
        let is_cold : temp ≡ nought = rw cold refl in
        let rounds = clamped fl cfg.n_draft max_accepted in
        let drafts =
          draft_from fl draft_graph target_graph nought rounds input_token kv_pos s
            (seed fl draft_graph target_graph cfg) in
        let few =
          length-draft_from fl draft_graph target_graph nought rounds input_token kv_pos s
            (seed fl draft_graph target_graph cfg) in
        let some_draft =
          length-draft_from_first fl draft_graph target_graph nought rounds input_token kv_pos s
            (seed fl draft_graph target_graph cfg) first drafted
            (clamped_pos cfg.n_draft max_accepted room) in
        let outcome =
          verify fl draft_graph target_graph nought drafts.0 max_accepted input_token kv_pos
            drafts.1 drafts.2 in
        let (n, short, fits, enough, h) =
          verify-IsPlain drafts.0 max_accepted input_token kv_pos drafts.1 drafts.2 in
        (
          n,
          omega arith,
          omega arith,
          subst (IsPlain fl graph view n input_token kv_pos (view s))
              (sym (
                rw is_cold at (
                  speculative_step-runs fl draft_graph target_graph cfg input_token kv_pos
                    max_accepted s room same)))
              (subst (λ t. IsPlain fl graph view n input_token kv_pos t outcome)
                (draft_from-view rounds input_token kv_pos s (seed fl draft_graph target_graph cfg))
                h),
        )
