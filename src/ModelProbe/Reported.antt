-- ===== src/ModelProbe/Reported.antt =====
-- How a probe ends: with the operators of the model, or with a status and a cause.
use etha_jhol.Common.{
  ℕ, ◌≤◌, ◌≡◌, ◌⊎◌, inl, inr, refl, sym, subst, arith, Bool, true, false, none, some, List, [],
  ◌==◌, if◌then◌else◌, length, Option-cases,
}
use etha_jhol.Common.Result.{format, unsupported}
use etha_jhol.Common.Text.{ascii}
use etha_jhol.Gguf.Layout.{Tensor}
use etha_jhol.ModelProbe.Accepted.{embedding_check-Sound, layout_check-Sound, tensors_check-Sound}
use etha_jhol.ModelProbe.Checks.{
  Verdict, declared, from_embedding, with_heads, with_softcap, with_features,
}
use etha_jhol.ModelProbe.Run.{
  ops_of, finish, probe_tensors, probe_features, probe_embedding, model_probe,
}
use etha_jhol.ModelProbe.Meta.{View, new_log, Geometry, Probe}
use etha_jhol.ModelProbe.Passed.{
  model_probe-no_architecture, model_probe-no_embedding, model_probe-embedding,
}
use etha_jhol.ModelProbe.Rules.{
  Clean, Refused, Outcome, goes, stops, fail_with-Refused, new_log-Clean,
}

abbrev pub IsReported : Probe → Type 0
IsReported p = (Clean p.log × (4 ≤ length p.required_ops)) ⊎ (Refused p.log × (p.required_ops ≡ []))

finish-IsReported :
    {P : Type 0} (g : Geometry) {s : Verdict} → Outcome P s → IsReported (finish g s)
unfolding finish ops_of
finish-IsReported g (goes p h x) = inl (h, omega arith)
finish-IsReported g (stops p h) = inr (h, refl)

module _ (file : View) (arch : List ℕ) (te : Tensor) where
  tensors-IsReported :
      {P : Type 0} (g : Geometry) {s : Verdict}
      → Outcome P s
      → IsReported (probe_tensors file arch te g s)
  unfolding probe_tensors
  tensors-IsReported g (goes p h x) =
      let g' = with_softcap file arch g in
      finish-IsReported g' ((tensors_check-Sound file arch te g').at p h)
  tensors-IsReported g (stops p h) = inr (h, refl)

  features-IsReported :
      {P : Type 0} (g : Geometry) {s : Verdict}
      → Outcome P s
      → IsReported (probe_features file arch te g s)
  unfolding probe_features
  features-IsReported g (goes p h x) =
      let g' = with_features file g in tensors-IsReported g' ((layout_check-Sound file g').at p h)
  features-IsReported g (stops p h) = inr (h, refl)

  embedding-IsReported : (g : Geometry) → IsReported (probe_embedding file arch te g)
  unfolding probe_embedding
  embedding-IsReported g =
      let g' = from_embedding g te in
      heads (g'.n_head == 0) _ _ (inr (fail_with-Refused new_log format none _ new_log-Clean, refl))
        (features-IsReported (with_heads g') ((embedding_check-Sound te).at new_log new_log-Clean))
    where
      heads :
          (b : Bool) (p q : Probe) → IsReported p → IsReported q → IsReported (if b then p else q)
      heads true p q h k = h
      heads false p q h k = k

-- A probe ends in one of two ways. Either it passes, with no status and no detail, and lists at
-- least four operators; or it does not pass, and then it carries a status and the cause, and
-- lists no operator. It names at most 12 types of weights either way.
pub model_probe-IsReported : (file : View) → IsReported (model_probe file)
model_probe-IsReported file = elim (Option-cases (file.meta (ascii "general.architecture"))) [
  | inl e ↦
      subst IsReported (sym (model_probe-no_architecture file e))
        (inr (fail_with-Refused new_log format none _ new_log-Clean, refl))
  | inr (arch, e) ↦ elim (Option-cases (file.tensor (ascii "token_embd.weight"))) [
    | inl lacks ↦ subst IsReported (sym (model_probe-no_embedding file arch e lacks)) (
        inr (
          fail_with-Refused new_log unsupported (some (ascii "token_embd.weight")) _ new_log-Clean,
          refl,
        ))
    | inr (te, has) ↦
        subst IsReported (sym (model_probe-embedding file arch te e has))
          (embedding-IsReported file arch te (declared file arch))
  ]
]
