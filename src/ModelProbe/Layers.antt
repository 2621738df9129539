-- ===== src/ModelProbe/Layers.antt =====
-- The checks of `vg_model_probe` on the whole model, its loop over the layers, and the probe itself.
use etha_jhol.Common.{
  ℕ, zero, suc, ◌+◌, ◌*◌, ◌%◌, ◌^◌, Bool, true, false, ◌&&◌, ◌||◌, not, Option, none, some, List,
  [], ◌∷◌, ltb, leb, ◌==◌, if◌then◌else◌, length,
}
use etha_jhol.Common.Result.{format, unsupported}
use etha_jhol.Common.Text.{ascii}
use etha_jhol.Gguf.Layout.{Tensor}
use etha_jhol.ModelProbe.Checks.{
  go, Check, ◌>=>◌, refuse, dim, require_vector, require_tensor, layer_name, has_tensor,
}
use etha_jhol.ModelProbe.Meta.{
  View, incomplete, packed_gate, expert_count, no_dequantizer, wrong_head, wrong_experts, unhandled,
  unknown_architecture, add_quant, arch_supported, Geometry,
}
use etha_jhol.Quant.{quant_info}

-- Whether the type of the tensor has a dequantizer on the CPU.
unfoldable pub dequantizes : ℕ → Bool
dequantizes type = elim (quant_info type) [ none ↦ false | some q ↦ q.supported_scalar ]

-- The type of the embedding table.
unfoldable pub embedding_check : Tensor → Check
unfolding dequantizes
embedding_check te p =
    let seen = add_quant p te.ggml_type in
    if dequantizes te.ggml_type
    then go seen
    else refuse unsupported (some (ascii "token_embd.weight")) no_dequantizer seen

unfoldable pub geometry_check : Geometry → Check
geometry_check g p =
    if (g.n_layer == 0) || (g.n_embd == 0) || (g.head_dim == 0)
    then refuse format none incomplete p
    else go p

-- `k_unhandled`
abbrev pub unhandled_tensors : List (List ℕ)
unhandled_tensors =
    ascii "blk.0.attn_qkv.weight"
    ∷ ascii "blk.0.attn_q_a.weight"
    ∷ ascii "blk.0.kv_a_proj_with_mqa.weight"
    ∷ ascii "blk.0.ffn_gate_up.weight"
    ∷ ascii "position_embd.weight"
    ∷ ascii "blk.0.attn_conv_q.weight"
    ∷ []

-- None of the tensors is there.
unfoldable pub absent_check : View → List (List ℕ) → Check
absent_check file [] p = go p
absent_check file (name ∷ names) p =
    let rest = absent_check file names p in
    if has_tensor file name then refuse unsupported (some name) unhandled p else rest

-- Gate and up packed together in `ffn_up`.
abbrev is_packed : View → Geometry → Option Tensor → Bool
is_packed file g none = false
is_packed file g (some fu) =
    ltb 0 g.n_ff
    && leb 2 (length fu.dims)
    && (dim fu 1 == 2 * g.n_ff)
    && not (has_tensor file (ascii "blk.0.ffn_gate.weight"))

unfoldable pub packed_check : View → Geometry → Check
packed_check file g p =
    if is_packed file g (file.tensor (ascii "blk.0.ffn_up.weight"))
    then refuse unsupported (some (ascii "blk.0.ffn_up.weight")) packed_gate p
    else go p

unfoldable pub shared_check : Geometry → Check
shared_check g p =
    if g.has_shared_expert && not g.is_moe
    then refuse format (some (ascii "blk.0.ffn_gate_shexp.weight")) expert_count p
    else go p

unfoldable pub arch_check : List ℕ → Check
arch_check arch p =
    if arch_supported arch then go p else refuse unsupported none unknown_architecture p

-- The output head: `output.weight`, or the embedding table.
unfoldable pub head_check : Geometry → Tensor → Check
unfolding dequantizes
head_check g lm p =
    let seen = add_quant p lm.ggml_type in
    if not (dequantizes lm.ggml_type)
    then refuse unsupported (some lm.name) no_dequantizer seen
    else if ltb (length lm.dims) 2 || not (dim lm 0 == g.n_embd)
    then refuse format (some lm.name) wrong_head seen
    else go seen

abbrev pub head_of : View → Tensor → Tensor
head_of file te = elim (file.tensor (ascii "output.weight")) [ none ↦ te | some t ↦ t ]

-- `n_head * head_dim` and `n_head_kv * head_dim` on `uint32_t`.
abbrev pub q_dim : Geometry → ℕ
q_dim g = g.n_head * g.head_dim % 2 ^ 32

abbrev pub k_dim : Geometry → ℕ
k_dim g = g.n_head_kv * g.head_dim % 2 ^ 32

-- The stack of the experts of layer 0, where there is one.
unfoldable pub stack_fits : Geometry → Option Tensor → Check
stack_fits g none p = go p
stack_fits g (some ge) p =
    if leb 3 (length ge.dims) && not (dim ge 2 == g.n_expert)
    then refuse format (some ge.name) wrong_experts p
    else go p

abbrev pub stack_check : View → Geometry → Check
stack_check file g = stack_fits g (file.tensor (ascii "blk.0.ffn_gate_exps.weight"))

module _ (file : View) (g : Geometry) where
  abbrev weight : ℕ → List ℕ → Check
  weight l suffix = require_tensor file (layer_name l suffix) g.n_embd 0 false

  abbrev matrix : ℕ → List ℕ → ℕ → ℕ → Check
  matrix l suffix dim0 dim1 = require_tensor file (layer_name l suffix) dim0 dim1 true

  -- The norms and the projections of the attention.
  unfoldable pub attention_check : ℕ → Check
  attention_check l =
      weight l (ascii "attn_norm.weight")
      >=> matrix l (ascii "attn_q.weight") g.n_embd (q_dim g)
      >=> matrix l (ascii "attn_k.weight") g.n_embd (k_dim g)
      >=> matrix l (ascii "attn_v.weight") g.n_embd (k_dim g)
      >=> matrix l (ascii "attn_output.weight") (q_dim g) g.n_embd
      >=> weight l (ascii "ffn_norm.weight")

  unfoldable pub sub_norm_check : ℕ → Check
  sub_norm_check l p =
      if g.has_sub_norm
      then (require_vector file (layer_name l (ascii "attn_sub_norm.weight")) (q_dim g)
            >=> require_vector file (layer_name l (ascii "ffn_sub_norm.weight")) g.n_ff)
          p
      else go p

  unfoldable pub experts_check : ℕ → Check
  experts_check l =
      matrix l (ascii "ffn_gate_inp.weight") g.n_embd g.n_expert
      >=> matrix l (ascii "ffn_gate_exps.weight") g.n_embd 0
      >=> matrix l (ascii "ffn_up_exps.weight") g.n_embd 0
      >=> matrix l (ascii "ffn_down_exps.weight") g.n_ff g.n_embd
      >=> stack_check file g

  unfoldable pub gate_check : ℕ → Check
  gate_check l p =
      if has_tensor file (ascii "blk.0.ffn_gate.weight")
      then matrix l (ascii "ffn_gate.weight") g.n_embd g.n_ff p
      else go p

  unfoldable pub dense_check : ℕ → Check
  unfolding gate_check
  dense_check l =
      gate_check l
      >=> matrix l (ascii "ffn_up.weight") g.n_embd g.n_ff
      >=> matrix l (ascii "ffn_down.weight") g.n_ff g.n_embd

  unfoldable pub feed_forward_check : ℕ → Check
  unfolding experts_check dense_check
  feed_forward_check l p = if g.is_moe then experts_check l p else dense_check l p

  -- One round of the loop.
  unfoldable pub layer_check : ℕ → Check
  unfolding attention_check sub_norm_check feed_forward_check
  layer_check l = attention_check l >=> sub_norm_check l >=> feed_forward_check l

  -- The loop over the layers, from `l` on, with `left` layers to go.
  unfoldable pub layers_from : ℕ → ℕ → Check
  unfolding layer_check
  layers_from l zero p = go p
  layers_from l (suc left) p = (layer_check l >=> layers_from (l + 1) left) p
