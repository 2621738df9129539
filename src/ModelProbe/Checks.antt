-- ===== src/ModelProbe/Checks.antt =====
-- The geometry of `vg_model_probe`, and the checks on one tensor.
use etha_jhol.Common.{
  ℕ, ◌/◌, ◌%◌, ◌^◌, Bool, true, false, ◌&&◌, ◌||◌, not, Option, none, some, List, ◌∷◌, ◌++◌, ltb,
  leb, ◌==◌, if◌then◌else◌, length, get_or,
}
use etha_jhol.Common.Result.{Status, format, unsupported}
use etha_jhol.Common.Text.{ascii}
use etha_jhol.Gguf.Layout.{Tensor}
use etha_jhol.Gguf.Reader.{fmt_u64}
use etha_jhol.ModelProbe.Meta.{
  View, Cause, missing, no_dequantizer, not_matrix, wrong_shape, wrong_rows, wrong_outputs,
  ragged_row, unknown_type, Log, fail_with, add_quant, clip, meta_int, positive_or_0, Geometry,
}
use etha_jhol.Quant.{Info, quant_info}

-- A check goes on with the log, or ends the probe with it.
pub data Verdict : Type 0 where
  go stop : Log → Verdict

abbrev pub Check : Type 0
Check = Log → Verdict

infixr 5 ◌>=>◌
abbrev pub ◌>=>◌ : Check → Check → Check
(c >=> d) p = elim (c p) [ go q ↦ d q | stop q ↦ stop q ]

-- `fail(...)` and the `return` behind it.
abbrev pub refuse : Status → Option (List ℕ) → Cause → Check
refuse st tensor cause p = stop (fail_with p st tensor cause)

-- `t->dims[i]`: the dimensions that a tensor does not have are zero.
abbrev pub dim : Tensor → ℕ → ℕ
dim t i = get_or t.dims i 0

-- `want && t->dims[i] != want`
abbrev pub differs : ℕ → Tensor → ℕ → Bool
differs want t i = ltb 0 want && not (dim t i == want)

-- The type and the shape of a vector.
unfoldable pub vector_check : List ℕ → Tensor → Option Info → ℕ → Check
vector_check name t none want p = refuse unsupported (some name) no_dequantizer p
vector_check name t (some q) want p =
    if not q.supported_scalar
    then refuse unsupported (some name) no_dequantizer p
    else if not (length t.dims == 1) || differs want t 0
    then refuse format (some name) wrong_shape p
    else go p

-- `require_vector`
unfoldable pub require_vector : View → List ℕ → ℕ → Check
unfolding vector_check
require_vector file name want p = elim (file.tensor name) [
  | none ↦ refuse unsupported (some name) missing p
  | some t ↦ vector_check name t (quant_info t.ggml_type) want p
]

-- The shape of a matrix of blocks of the type.
unfoldable pub shape_check : List ℕ → Tensor → Info → ℕ → ℕ → Check
shape_check name t q dim0 dim1 p =
    if ltb (length t.dims) 2
    then refuse format (some name) not_matrix p
    else if differs dim0 t 0
    then refuse format (some name) wrong_rows p
    else if differs dim1 t 1
    then refuse format (some name) wrong_outputs p
    else if ltb 0 (dim t 0 % q.block_size)
    then refuse format (some name) ragged_row p
    else go p

unfoldable pub weight_check : List ℕ → Tensor → Option Info → ℕ → ℕ → Bool → Check
unfolding shape_check
weight_check name t none dim0 dim1 check_dims p =
    refuse unsupported (some name) (unknown_type t.ggml_type) p
weight_check name t (some q) dim0 dim1 check_dims p =
    let seen = add_quant p t.ggml_type in
    if not q.supported_scalar
    then refuse unsupported (some name) no_dequantizer seen
    else if check_dims
    then shape_check name t q dim0 dim1 seen
    else go seen

-- `require_tensor`
unfoldable pub require_tensor : View → List ℕ → ℕ → ℕ → Bool → Check
unfolding weight_check
require_tensor file name dim0 dim1 check_dims p = elim (file.tensor name) [
  | none ↦ refuse unsupported (some name) missing p
  | some t ↦ weight_check name t (quant_info t.ggml_type) dim0 dim1 check_dims p
]

-- "%s.<suffix>" of the architecture, in a buffer of 160 bytes.
abbrev pub arch_key : List ℕ → List ℕ → List ℕ
arch_key arch suffix = clip 160 (arch ++ b'.' ∷ suffix)

-- "blk.%u.<suffix>" of the layer.
abbrev pub layer_name : ℕ → List ℕ → List ℕ
layer_name l suffix = clip 160 (ascii "blk." ++ fmt_u64 l ++ b'.' ∷ suffix)

abbrev pub has_tensor : View → List ℕ → Bool
has_tensor file name = elim (file.tensor name) [ none ↦ false | some t ↦ true ]

abbrev or_else : Option ℕ → Option ℕ → Option ℕ
or_else none o = o
or_else (some v) o = some v

-- The context length: two fixed keys, then that of the architecture, then 2048.
unfoldable pub context_length : View → List ℕ → ℕ
context_length file arch =
    let fixed =
      or_else (meta_int file (ascii "llama.context_length"))
        (meta_int file (ascii "qwen2.context_length")) in
    let first : ℕ = elim fixed [ none ↦ 0 | some v ↦ v ] in
    let own = positive_or_0 (meta_int file (arch_key arch (ascii "context_length"))) in
    if ltb 0 first then first else if ltb 0 own then own else 2048

-- The numbers that the metadata declare; no feature is looked for yet.
unfoldable pub declared : View → List ℕ → Geometry
unfolding context_length
declared file arch =
    let read = λ (suffix : List ℕ). positive_or_0 (meta_int file (arch_key arch suffix)) in
    record {
      arch = clip 48 arch;
      n_vocab = read (ascii "vocab_size");
      n_layer = read (ascii "block_count");
      n_embd = read (ascii "embedding_length");
      n_head = read (ascii "attention.head_count");
      n_head_kv = read (ascii "attention.head_count_kv");
      head_dim = read (ascii "attention.key_length");
      n_ff = read (ascii "feed_forward_length");
      n_rot = read (ascii "rope.dimension_count");
      n_expert = read (ascii "expert_count");
      n_expert_used = read (ascii "expert_used_count");
      n_ctx = context_length file arch;
      has_tokenizer = false;
      has_bias = false;
      has_qk_norm = false;
      has_sub_norm = false;
      has_post_norm = false;
      has_shared_expert = false;
      logit_softcap = 0;
      is_moe = false;
    }

-- What the embedding table `te` gives where the metadata omit it.
unfoldable pub from_embedding : Geometry → Tensor → Geometry
from_embedding g te = record g {
  n_vocab = if (g.n_vocab == 0) && leb 2 (length te.dims) then dim te 1 % 2 ^ 32 else g.n_vocab;
  n_embd = if (g.n_embd == 0) && leb 1 (length te.dims) then dim te 0 % 2 ^ 32 else g.n_embd;
}

-- The heads, where `n_head` is not zero.
unfoldable pub with_heads : Geometry → Geometry
with_heads g =
    let head_dim = if g.head_dim == 0 then g.n_embd / g.n_head else g.head_dim in
    let n_rot = if g.n_rot == 0 then head_dim else g.n_rot in
    record g {
      n_head_kv = if g.n_head_kv == 0 then g.n_head else g.n_head_kv;
      head_dim = head_dim;
      n_rot = if ltb head_dim n_rot then head_dim else n_rot;
    }

unfoldable pub with_features : View → Geometry → Geometry
with_features file g =
    let has = λ (name : List ℕ). has_tensor file name in
    let moe = ltb 1 g.n_expert && has (ascii "blk.0.ffn_gate_inp.weight") in
    record g {
      has_tokenizer = elim (file.meta (ascii "tokenizer.ggml.model")) [
        | none ↦ false
        | some m ↦ true
      ];
      has_bias = has (ascii "blk.0.attn_q.bias");
      has_qk_norm = has (ascii "blk.0.attn_q_norm.weight");
      has_sub_norm = has (ascii "blk.0.attn_sub_norm.weight");
      has_post_norm =
          has (ascii "blk.0.attn_post_norm.weight") && has (ascii "blk.0.ffn_post_norm.weight");
      has_shared_expert =
          has (ascii "blk.0.ffn_gate_shexp.weight") && has (ascii "blk.0.ffn_down_shexp.weight");
      is_moe = moe;
      n_expert_used = if moe && (g.n_expert_used == 0) then 1 else g.n_expert_used;
    }

-- The cap on the last logits, where the metadata declare one.
unfoldable pub with_softcap : View → List ℕ → Geometry → Geometry
with_softcap file arch g = record g {
  logit_softcap =
      positive_or_0 (meta_int file (clip 96 (arch ++ b'.' ∷ ascii "final_logit_softcap")));
}
