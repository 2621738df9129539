-- ===== src/Speculative/Greedy/Rounds.antt =====
-- The rounds of a speculative step at temperature 0.
use etha_jhol.Common.{
  ℕ, suc, ◌+◌, ◌<◌, ◌≡◌, refl, sym, some, List, [], ◌∷◌, ◌==◌, if◌then◌else◌, ge→ltb, ==_iff,
}
use etha_jhol.Common.Floats.{Floats, IsOrdered}
use etha_jhol.Speculative.{
  Graph, Config, write, largest, draft_from, verify, clamped, speculative_step,
  effective_temperature, seed,
}
use etha_jhol.Speculative.Plain.{FillsLogits}
use etha_jhol.Speculative.Greedy.OneHot.{argmax-one_hot}

module _ {F D S : Type 0} (fl : Floats F D) (draft_graph target_graph : Graph F S)
    (ordered : IsOrdered fl) (some_vocab : 0 < target_graph.n_vocab)
    (fills : FillsLogits target_graph) where
  open fl use {nought}

  -- A round at temperature 0, with the decode's logits.
  pub verify-got :
      (token : ℕ) (q : F) (ps : List (ℕ × F)) (room feed pos : ℕ) (s : S) (rng : ℕ)
      → (logits : List F) → (target_graph.decode s feed pos).0 ≡ some logits
      → let s' = (target_graph.decode s feed pos).1 in
        let best = largest fl logits in
        verify fl draft_graph target_graph nought ((token, q) ∷ ps) (suc room) feed pos s rng ≡ (
          if token == best
          then write best (verify fl draft_graph target_graph nought ps room best (pos + 1) s' rng)
          else record { accepted = best ∷ []; state = s'; rng = rng })
  unfolding verify
  verify-got token q ps room feed pos s rng logits got =
      rw
        (sym (
          argmax-one_hot fl ordered target_graph.n_vocab logits (fills s feed pos logits got)
            some_vocab))
        (rw (got, verify) (rw ordered.nought_le refl))

module _ {F D S : Type 0} (fl : Floats F D) (draft_graph target_graph : Graph F S) where
  -- Arguments that are in order lead to the loops.
  pub speculative_step-runs :
      (cfg : Config F) (input_token kv_pos max_accepted : ℕ) (s : S)
      → 0 < max_accepted
      → draft_graph.n_vocab ≡ target_graph.n_vocab
      → let drafted =
          draft_from fl draft_graph target_graph
            (effective_temperature fl draft_graph target_graph cfg)
            (clamped fl cfg.n_draft max_accepted)
            input_token
            kv_pos
            s
            (seed fl draft_graph target_graph cfg) in
        speculative_step fl draft_graph target_graph cfg input_token kv_pos max_accepted s
        ≡ verify fl draft_graph target_graph
            (effective_temperature fl draft_graph target_graph cfg)
            drafted.0
            max_accepted
            input_token
            kv_pos
            drafted.1
            drafted.2
  unfolding speculative_step
  speculative_step-runs cfg input_token kv_pos max_accepted s room same =
      rw (ge→ltb _ _ room, (==_iff _ _).1 same) refl
