-- ===== src/Speculative/Greedy/Same.antt =====
-- A graph that is draft and target at temperature 0: every proposal is accepted.
use etha_jhol.Common.{ℕ, ◌+◌, ◌≤◌, ◌≡◌, List}
use etha_jhol.Common.Floats.{Floats}
use etha_jhol.Speculative.{Graph}

-- What `Agrees k s t` says of two states of a graph: they are the same at the positions in front of `k`. A decode
-- reads the positions in front of its own, and writes its own.
pub record IsByPosition {F S : Type 0} (graph : Graph F S) (Agrees : ℕ → S → S → Type 0)
    : Type 0 where
  pub same : (k : ℕ) (s : S) → Agrees k s s
  pub reads :
      (pos token : ℕ) (s t : S)
      → Agrees pos s t
      → (graph.decode s token pos).0 ≡ (graph.decode t token pos).0
  pub writes :
      (pos token : ℕ) (s t : S)
      → Agrees pos s t
      → Agrees (pos + 1) (graph.decode s token pos).1 (graph.decode t token pos).1
  pub behind :
      (k pos token : ℕ) (s t : S) → k ≤ pos → Agrees k s t → Agrees k (graph.decode s token pos).1 t
