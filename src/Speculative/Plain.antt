-- ===== src/Speculative/Plain.antt =====
-- Plain decoding, with which a speculative step is compared.
use etha_jhol.Common.{ℕ, zero, suc, ◌+◌, ◌≡◌, refl, none, some, List, [], ◌∷◌, length}
use etha_jhol.Common.Floats.{Floats}
use etha_jhol.Speculative.{Graph, Outcome, largest}

-- A decode that succeeds gives one logit for each token.
abbrev pub FillsLogits : {F S : Type 0} → Graph F S → Type 0
FillsLogits {F} {S} graph =
    (s : S) (token pos : ℕ) (logits : List F)
    → (graph.decode s token pos).0 ≡ some logits
    → length logits ≡ graph.n_vocab

module _ {F D : Type 0} (fl : Floats F D) where
  -- Plain decoding: each token is the first of the largest logits, until a decode fails.
  unfoldable pub plain : {T : Type 0} → Graph F T → ℕ → ℕ → ℕ → T → List ℕ × T
  plain graph zero feed pos t = ([], t)
  plain graph (suc n) feed pos t = elim (graph.decode t feed pos).0 [
    | none ↦ ([], (graph.decode t feed pos).1)
    | some logits ↦
        let token = largest fl logits in
        let (rest, t') = plain graph n token (pos + 1) (graph.decode t feed pos).1 in
        (token ∷ rest, t')
  ]

  -- The outcome is that of `n` rounds of plain decoding, where `view` is the graph's part of the state.
  pub record IsPlain {S T : Type 0} (graph : Graph F T) (view : S → T) (n feed pos : ℕ) (t : T)
      (o : Outcome S) : Type 0 where
    pub tokens : o.accepted ≡ (plain graph n feed pos t).0
    pub state : view o.state ≡ (plain graph n feed pos t).1

  -- The target is a graph on its part of the state, which the draft leaves alone.
  pub record IsApart {S T : Type 0} (draft_graph target_graph : Graph F S) (graph : Graph F T)
      (view : S → T) : Type 0 where
    pub logits :
        (s : S) (token pos : ℕ)
        → (target_graph.decode s token pos).0 ≡ (graph.decode (view s) token pos).0
    pub target :
        (s : S) (token pos : ℕ)
        → view (target_graph.decode s token pos).1 ≡ (graph.decode (view s) token pos).1
    pub draft : (s : S) (token pos : ℕ) → view (draft_graph.decode s token pos).1 ≡ view s

  module _ {T : Type 0} (graph : Graph F T) where
    pub plain-got :
        (n feed pos : ℕ) (t : T) (logits : List F)
        → (graph.decode t feed pos).0 ≡ some logits
        → let rest = plain graph n (largest fl logits) (pos + 1) (graph.decode t feed pos).1 in
          plain graph (suc n) feed pos t ≡ (largest fl logits ∷ rest.0, rest.1)
    unfolding plain
    plain-got n feed pos t logits got = rw (got, plain) refl

    pub plain-failed :
        (feed pos : ℕ) (t : T)
        → (graph.decode t feed pos).0 ≡ none
        → plain graph 1 feed pos t ≡ ([], (graph.decode t feed pos).1)
    unfolding plain
    plain-failed feed pos t failed = rw (failed, plain) refl
