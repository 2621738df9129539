-- ===== src/Tests/ModelProbe.antt =====
-- The probe of a model with one layer, and of the same model under an unknown architecture.
use etha_jhol.Common.{ℕ, ◌≡◌, refl, Option, none, some, List, [], ◌∷◌, if◌then◌else◌, list_eq}
use etha_jhol.Common.Text.{ascii, strtol}
use etha_jhol.Quant.{quant_info}
use etha_jhol.Gguf.Reader.{fmt_u64}
use etha_jhol.ModelProbe.Checks.{
  from_embedding, declared, with_features, with_heads, require_tensor, with_softcap,
}
use etha_jhol.Gguf.Layout.{Tensor}
use etha_jhol.ModelProbe.Run.{model_probe, tensors_check}
use etha_jhol.ModelProbe.Meta.{
  View, arch_supported, positive_or_0, meta_int, add_quant, matmul, rmsnorm, rope, softmax, swiglu,
}
use etha_jhol.ModelProbe.Reported.{IsReported, model_probe-IsReported}

look_up : {A : Type 0} → List ℕ → List (List ℕ × A) → Option A
look_up name [] = none
look_up name ((n, x) ∷ entries) =
    let rest = look_up name entries in if list_eq n name then some x else rest

abbrev f32 : List ℕ → List ℕ → List ℕ × Tensor
f32 name dims =
    (name, record { name = name; dims = dims; ggml_type = 0; data_offset = 0; nbytes = 0 })

abbrev tensors : List (List ℕ × Tensor)
tensors =
    f32 (ascii "token_embd.weight") (2 ∷ 4 ∷ [])
    ∷ f32 (ascii "output_norm.weight") (2 ∷ [])
    ∷ f32 (ascii "blk.0.attn_norm.weight") (2 ∷ [])
    ∷ f32 (ascii "blk.0.attn_q.weight") (2 ∷ 2 ∷ [])
    ∷ f32 (ascii "blk.0.attn_k.weight") (2 ∷ 2 ∷ [])
    ∷ f32 (ascii "blk.0.attn_v.weight") (2 ∷ 2 ∷ [])
    ∷ f32 (ascii "blk.0.attn_output.weight") (2 ∷ 2 ∷ [])
    ∷ f32 (ascii "blk.0.ffn_norm.weight") (2 ∷ [])
    ∷ f32 (ascii "blk.0.ffn_gate.weight") (2 ∷ 3 ∷ [])
    ∷ f32 (ascii "blk.0.ffn_up.weight") (2 ∷ 3 ∷ [])
    ∷ f32 (ascii "blk.0.ffn_down.weight") (3 ∷ 2 ∷ [])
    ∷ []

unfoldable a_model : List ℕ → View
unfolding look_up
a_model arch = record {
  meta = λ key. look_up key (
      (ascii "general.architecture", arch)
      ∷ (ascii "llama.block_count", ascii "1")
      ∷ (ascii "llama.attention.head_count", ascii "1")
      ∷ (ascii "llama.feed_forward_length", ascii "3")
      ∷ []);
  tensor = λ name. look_up name tensors;
}

one_layer-required_ops :
    (model_probe (a_model (ascii "llama"))).required_ops
    ≡ matmul 1 ∷ rmsnorm ∷ rope 2 ∷ softmax ∷ swiglu ∷ []
unfolding model_probe a_model from_embedding declared positive_or_0 meta_int strtol quant_info
    with_features with_heads tensors_check arch_supported require_tensor with_softcap fmt_u64
    add_quant
one_layer-required_ops = refl

model_probe-IsReported_example : IsReported (model_probe (a_model (ascii "gptj")))
model_probe-IsReported_example = model_probe-IsReported (a_model (ascii "gptj"))
