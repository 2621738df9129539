-- ===== src/ModelProbe/Meta.antt =====
-- The state of `vg_model_probe`, its reads of the metadata, and `fail` and `add_quant`.
use etha_jhol.Common.{
  ℕ, ◌-◌, ◌%◌, ◌^◌, Bool, true, false, ◌&&◌, ◌||◌, Option, none, some, List, [], ◌∷◌, ◌++◌, ltb,
  ◌==◌, if◌then◌else◌, length, list_eq, take, get_elem?,
}
use etha_jhol.Common.Result.{Status}
use etha_jhol.Common.Text.{ascii, strtol}
use etha_jhol.Gguf.File.{File, find_tensor, gguf_meta}
use etha_jhol.Gguf.Layout.{Tensor}
use etha_jhol.Quant.{quant_info}

-- What the probe asks of an open file: `vg_gguf_meta` and `vg_gguf_find_tensor`.
pub record View : Type 0 where
  pub meta : List ℕ → Option (List ℕ)
  pub tensor : List ℕ → Option Tensor

unfoldable pub view : File → View
view f = record {
  meta = gguf_meta f;
  tensor = λ name. elim (find_tensor f name) [ none ↦ none | some i ↦ get_elem? f.tensors i ];
}

-- `k_archs`
abbrev pub archs : List (List ℕ)
archs =
    ascii "llama"
    ∷ ascii "mistral"
    ∷ ascii "qwen2"
    ∷ ascii "qwen2moe"
    ∷ ascii "qwen3"
    ∷ ascii "qwen3moe"
    ∷ ascii "gemma"
    ∷ ascii "gemma2"
    ∷ ascii "gemma3"
    ∷ ascii "smollm"
    ∷ ascii "tinyllama"
    ∷ ascii "bitnet"
    ∷ ascii "deepseek_moe"
    ∷ ascii "mixtral"
    ∷ []

unfoldable pub is_listed : List ℕ → List (List ℕ) → Bool
is_listed name [] = false
is_listed name (n ∷ names) = list_eq name n || is_listed name names

-- `arch_supported`
unfoldable pub arch_supported : List ℕ → Bool
unfolding is_listed
arch_supported arch = is_listed arch archs

-- The loop of `meta_int` over brackets, blanks and commas.
unfoldable pub skip_marks : List ℕ → List ℕ
skip_marks [] = []
skip_marks (c ∷ s) =
    let rest = skip_marks s in if (c == b'[') || (c == b' ') || (c == b',') then rest else c ∷ s

-- `(int32_t)` of the number, as its pattern of 32 bits.
unfoldable pub int_of : Option (List ℕ) → Option ℕ
unfolding skip_marks
int_of none = none
int_of (some v) = elim (strtol (skip_marks v)) [ none ↦ none | some (x, rest) ↦ some (x % 2 ^ 32) ]

-- `meta_int`
unfoldable pub meta_int : View → List ℕ → Option ℕ
unfolding int_of
meta_int file key = int_of (file.meta key)

-- A pattern of 32 bits that stands for a positive number.
abbrev pub is_positive : ℕ → Bool
is_positive v = ltb 0 v && ltb v (2 ^ 31)

-- `(uint32_t)(v > 0 ? v : 0)`, where `v` is 0 before the read.
unfoldable pub positive_or_0 : Option ℕ → ℕ
positive_or_0 none = 0
positive_or_0 (some v) = if is_positive v then v else 0

-- `snprintf` into a buffer of `size` bytes.
abbrev pub clip : ℕ → List ℕ → List ℕ
clip size s = take (size - 1) s

-- Why a model is refused: what `detail` prints.
pub data Cause : Type 0 where
  no_architecture no_head_count incomplete packed_gate expert_count : Cause
  missing no_dequantizer not_matrix wrong_shape wrong_rows wrong_outputs ragged_row wrong_head :
      Cause
  unknown_type : ℕ → Cause
  wrong_experts unhandled unknown_architecture : Cause

-- The fields of `VG_ModelProbe` that the checks change: `none` for the status `VG_OK`. A name of a
-- type is told by its row, `none` for "UNKNOWN".
pub record Log : Type 0 where
  pub passed : Bool
  pub status : Option Status
  pub detail : Option Cause
  pub detail_tensor : Option (List ℕ)
  pub quant_names : List (Option ℕ)

abbrev pub new_log : Log
new_log = record {
  passed = true;
  status = none;
  detail = none;
  detail_tensor = none;
  quant_names = [];
}

-- `fail`
unfoldable pub fail_with : Log → Status → Option (List ℕ) → Cause → Log
fail_with p st tensor cause = elim p.status [
  | some before ↦ p
  | none ↦ record p {
    passed = false;
    status = some st;
    detail_tensor = elim tensor [ none ↦ p.detail_tensor | some name ↦ some (clip 96 name) ];
    detail = some cause;
  }
]

abbrev pub same_name : Option ℕ → Option ℕ → Bool
same_name none none = true
same_name none (some k) = false
same_name (some k) none = false
same_name (some k) (some j) = k == j

unfoldable pub has_name : Option ℕ → List (Option ℕ) → Bool
has_name name [] = false
has_name name (n ∷ names) = same_name n name || has_name name names

-- `add_quant`
unfoldable pub add_quant : Log → ℕ → Log
unfolding has_name
add_quant p type =
    let name : Option ℕ = elim (quant_info type) [ none ↦ none | some q ↦ some q.kind ] in
    if has_name name p.quant_names
    then p
    else if ltb (length p.quant_names) 12
    then record p { quant_names = p.quant_names ++ name ∷ [] }
    else p

-- The numbers and features of `VG_ModelProbe`.
pub record Geometry : Type 0 where
  pub arch : List ℕ
  pub n_vocab : ℕ
  pub n_layer : ℕ
  pub n_embd : ℕ
  pub n_head : ℕ
  pub n_head_kv : ℕ
  pub head_dim : ℕ
  pub n_ff : ℕ
  pub n_rot : ℕ
  pub n_expert : ℕ
  pub n_expert_used : ℕ
  pub n_ctx : ℕ
  pub has_tokenizer : Bool
  pub has_bias : Bool
  pub has_qk_norm : Bool
  pub has_sub_norm : Bool
  pub has_post_norm : Bool
  pub has_shared_expert : Bool
  pub logit_softcap : ℕ
  pub is_moe : Bool

-- `required_ops`: none where the model was refused before.
pub data Op : Type 0 where
  matmul rope : ℕ → Op
  rmsnorm softmax qk_norm bias_add sub_norm post_norm softcap shared_expert : Op
  moe_route expert_matmul expert_cache swiglu : Op

-- `VG_ModelProbe`
pub record Probe : Type 0 where
  pub geometry : Geometry
  pub log : Log
  pub required_ops : List Op
