-- ===== src/Speculative/Draft.antt =====
-- How many proposals the drafting loop makes.
use etha_jhol.Common.{
  ℕ, zero, suc, ◌+◌, ◌≤◌, ◌≡◌, arith, some, List, length, inl, inr, Option-cases,
}
use etha_jhol.Common.Floats.{Floats}
use etha_jhol.Speculative.{Graph, clamped, draft_from, propose}

module _ {F D S : Type 0} (fl : Floats F D) (draft_graph target_graph : Graph F S) (temp : F) where
  pub length-draft_from :
      (rounds feed pos : ℕ) (s : S) (rng : ℕ)
      → length (draft_from fl draft_graph target_graph temp rounds feed pos s rng).0 ≤ rounds
  unfolding draft_from
  length-draft_from zero feed pos s rng = omega arith
  length-draft_from (suc rounds) feed pos s rng =
      elim (Option-cases (draft_graph.decode s feed pos).0) [
        | inl failed ↦ rw (failed, draft_from) (omega arith)
        | inr (logits, got) ↦
            let step = propose fl draft_graph target_graph temp logits rng in
            let rest =
              length-draft_from rounds step.0 (pos + 1) (draft_graph.decode s feed pos).1 step.1 in
            rw (got, draft_from) (omega (arith, rest))
      ]

  pub length-draft_from_first :
      (rounds feed pos : ℕ) (s : S) (rng : ℕ) (logits : List F)
      → (draft_graph.decode s feed pos).0 ≡ some logits
      → 1 ≤ rounds
      → 1 ≤ length (draft_from fl draft_graph target_graph temp rounds feed pos s rng).0
  unfolding draft_from
  length-draft_from_first zero feed pos s rng logits got h = elim h [ ]
  length-draft_from_first (suc rounds) feed pos s rng logits got h =
      rw (got, draft_from) (omega arith)

pub clamped-le :
    {F D : Type 0} (fl : Floats F D) (n_draft max_accepted : ℕ)
    → clamped fl n_draft max_accepted ≤ max_accepted
unfolding clamped
clamped-le fl n_draft max_accepted = ground arith
