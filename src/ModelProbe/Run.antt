-- ===== src/ModelProbe/Run.antt =====
-- The stages of `vg_model_probe`, and the probe itself.
use etha_jhol.Common.{
  ℕ, Bool, true, false, Option, none, some, List, [], ◌∷◌, ltb, ◌==◌, if◌then◌else◌, length,
}
use etha_jhol.Common.Result.{Status, format, unsupported}
use etha_jhol.Common.Text.{ascii}
use etha_jhol.Gguf.Layout.{Tensor}
use etha_jhol.ModelProbe.Checks.{
  Verdict, go, stop, Check, ◌>=>◌, require_tensor, declared, from_embedding, with_heads,
  with_features, with_softcap,
}
use etha_jhol.ModelProbe.Meta.{
  View, Cause, no_architecture, no_head_count, missing, Log, new_log, fail_with, Geometry, Op,
  matmul, rope, rmsnorm, softmax, qk_norm, bias_add, sub_norm, post_norm, softcap, shared_expert,
  moe_route, expert_matmul, expert_cache, swiglu, Probe,
}
use etha_jhol.ModelProbe.Layers.{
  layers_from, absent_check, arch_check, embedding_check, geometry_check, head_check, head_of,
  packed_check, shared_check, unhandled_tensors,
}

-- The checks that stand in front of the reading of the softcap, and those behind it.
unfoldable pub layout_check : View → Geometry → Check
unfolding geometry_check absent_check packed_check shared_check
layout_check file g =
    geometry_check g
    >=> absent_check file unhandled_tensors
    >=> packed_check file g
    >=> shared_check g

unfoldable pub tensors_check : View → List ℕ → Tensor → Geometry → Check
unfolding arch_check head_check layers_from
tensors_check file arch te g =
    arch_check arch
    >=> require_tensor file (ascii "output_norm.weight") g.n_embd 0 false
    >=> head_check g (head_of file te)
    >=> layers_from file g 0 g.n_layer

abbrev when : Bool → Op → List Op → List Op
when true op ops = op ∷ ops
when false op ops = ops

-- "matmul[%u types], rmsnorm, rope(n_rot=%u), softmax" and what the features add.
unfoldable pub ops_of : Geometry → ℕ → List Op
ops_of g n_quant_kinds =
    matmul n_quant_kinds
    ∷ rmsnorm
    ∷ rope g.n_rot
    ∷ softmax
    ∷ when g.has_qk_norm qk_norm (
        when g.has_bias bias_add (
          when g.has_sub_norm sub_norm (
            when g.has_post_norm post_norm (
              when (ltb 0 g.logit_softcap) softcap (
                when g.has_shared_expert shared_expert (
                  if g.is_moe
                  then moe_route ∷ expert_matmul ∷ expert_cache ∷ []
                  else swiglu ∷ []))))))

abbrev pub refused_probe : Geometry → Log → Status → Option (List ℕ) → Cause → Probe
refused_probe g p st tensor cause = record {
  geometry = g;
  log = fail_with p st tensor cause;
  required_ops = [];
}

-- The end of the probe: the operators, unless a check has ended it.
unfoldable pub finish : Geometry → Verdict → Probe
unfolding ops_of
finish g (stop p) = record { geometry = g; log = p; required_ops = [] }
finish g (go p) = record { geometry = g; log = p; required_ops = ops_of g (length p.quant_names) }

-- The probe behind the layout checks.
unfoldable pub probe_tensors : View → List ℕ → Tensor → Geometry → Verdict → Probe
unfolding finish
probe_tensors file arch te g (stop p) = record { geometry = g; log = p; required_ops = [] }
probe_tensors file arch te g (go p) =
    let g' = with_softcap file arch g in finish g' (tensors_check file arch te g' p)

-- The probe behind the check on the type of the embedding table.
unfoldable pub probe_features : View → List ℕ → Tensor → Geometry → Verdict → Probe
unfolding probe_tensors layout_check
probe_features file arch te g (stop p) = record { geometry = g; log = p; required_ops = [] }
probe_features file arch te g (go p) =
    let g' = with_features file g in probe_tensors file arch te g' (layout_check file g' p)

-- The probe of a model with an architecture and an embedding table.
unfoldable pub probe_embedding : View → List ℕ → Tensor → Geometry → Probe
unfolding embedding_check probe_features
probe_embedding file arch te g =
    let g' = from_embedding g te in
    if g'.n_head == 0
    then refused_probe g' new_log format none no_head_count
    else probe_features file arch te (with_heads g') (embedding_check te new_log)

unfoldable pub no_geometry : Geometry
no_geometry = record {
  arch = ascii "(none)";
  n_vocab = 0;
  n_layer = 0;
  n_embd = 0;
  n_head = 0;
  n_head_kv = 0;
  head_dim = 0;
  n_ff = 0;
  n_rot = 0;
  n_expert = 0;
  n_expert_used = 0;
  n_ctx = 0;
  has_tokenizer = false;
  has_bias = false;
  has_qk_norm = false;
  has_sub_norm = false;
  has_post_norm = false;
  has_shared_expert = false;
  logit_softcap = 0;
  is_moe = false;
}

-- `vg_model_probe`
unfoldable pub model_probe : View → Probe
unfolding no_geometry probe_embedding
model_probe file = elim (file.meta (ascii "general.architecture")) [
  | none ↦ refused_probe no_geometry new_log format none no_architecture
  | some arch ↦ elim (file.tensor (ascii "token_embd.weight")) [
    | none ↦
        refused_probe (declared file arch) new_log unsupported (some (ascii "token_embd.weight"))
          missing
    | some te ↦ probe_embedding file arch te (declared file arch)
  ]
]
