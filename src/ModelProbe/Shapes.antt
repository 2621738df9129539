-- ===== src/ModelProbe/Shapes.antt =====
-- What the checks on one tensor guarantee.
use etha_jhol.Common.{
  ℕ, ◌%◌, ◌≤◌, ◌≡◌, ◌⊎◌, inl, inr, refl, arith, true, false, not, Option, none, some, List, ltb,
  ◌==◌, length, ltb→ge, Option-cases,
}
use etha_jhol.Common.Result.{format, unsupported}
use etha_jhol.Gguf.Layout.{Tensor}
use etha_jhol.ModelProbe.Checks.{
  dim, differs, vector_check, require_vector, shape_check, weight_check, require_tensor,
}
use etha_jhol.ModelProbe.Meta.{View, Log, add_quant}
use etha_jhol.Quant.{Info, quant_info}
use etha_jhol.ModelProbe.Rules.{
  Clean, Outcome, Sound, add_quant-Clean, goes, neither, refused, unless,
}

-- The tensor is there, and its type has a dequantizer.
pub record IsWeight (file : View) (name : List ℕ) : Type 0 where
  pub tensor : Tensor
  pub info : Info
  pub named : file.tensor name ≡ some tensor
  pub known : quant_info tensor.ggml_type ≡ some info
  pub supported : info.supported_scalar ≡ true

-- A weight that is a matrix of whole blocks, with `dim0` inputs and `dim1` outputs where these are
-- not zero.
pub record IsMatrix (file : View) (name : List ℕ) (dim0 dim1 : ℕ) : Type 0 where
  pub weight : IsWeight file name
  pub wide : 2 ≤ length weight.tensor.dims
  pub inputs : (dim0 ≡ 0) ⊎ (dim weight.tensor 0 ≡ dim0)
  pub outputs : (dim1 ≡ 0) ⊎ (dim weight.tensor 1 ≡ dim1)
  pub whole : dim weight.tensor 0 % weight.info.block_size ≡ 0

pub record IsVector (file : View) (name : List ℕ) (want : ℕ) : Type 0 where
  pub weight : IsWeight file name
  pub flat : length weight.tensor.dims ≡ 1
  pub size : (want ≡ 0) ⊎ (dim weight.tensor 0 ≡ want)

same_size :
    (want : ℕ) (t : Tensor) (i : ℕ) → differs want t i ≡ false → (want ≡ 0) ⊎ (dim t i ≡ want)
same_size want t i h = ground arith

shape_check-Outcome :
    (file : View) (name : List ℕ) (dim0 dim1 : ℕ) (w : IsWeight file name) (p : Log)
    → Clean p
    → Outcome (IsMatrix file name dim0 dim1) (shape_check name w.tensor w.info dim0 dim1 p)
unfolding shape_check
shape_check-Outcome file name dim0 dim1 w p h = unless _ p format (some name) _ h λ wide.
    unless _ p format (some name) _ h λ rows. unless _ p format (some name) _ h λ outs.
      unless _ p format (some name) _ h
        λ (ragged : ltb 0 (dim w.tensor 0 % w.info.block_size) ≡ false). goes p h (record {
          weight = w;
          wide = ltb→ge (length w.tensor.dims) 2 wide;
          inputs = same_size dim0 w.tensor 0 rows;
          outputs = same_size dim1 w.tensor 1 outs;
          whole = omega (arith, ltb→ge 0 (dim w.tensor 0 % w.info.block_size) ragged);
        })

weight_check-Outcome :
    (file : View) (name : List ℕ) (t : Tensor) (o : Option Info) (dim0 dim1 : ℕ) (p : Log)
    → file.tensor name ≡ some t
    → quant_info t.ggml_type ≡ o
    → Clean p
    → Outcome (IsMatrix file name dim0 dim1) (weight_check name t o dim0 dim1 true p)
unfolding weight_check
weight_check-Outcome file name t none dim0 dim1 p named known h =
    refused p unsupported (some name) _ h
weight_check-Outcome file name t (some q) dim0 dim1 p named known h =
    let fresh = add_quant-Clean p t.ggml_type h in
    unless _ (add_quant p t.ggml_type) unsupported (some name) _ fresh λ supported.
      shape_check-Outcome file name dim0 dim1
        (record {
          tensor = t;
          info = q;
          named = named;
          known = known;
          supported = ground (arith, supported);
        })
        (add_quant p t.ggml_type) fresh

weight_check-IsWeight :
    (file : View) (name : List ℕ) (t : Tensor) (o : Option Info) (dim0 dim1 : ℕ) (p : Log)
    → file.tensor name ≡ some t
    → quant_info t.ggml_type ≡ o
    → Clean p
    → Outcome (IsWeight file name) (weight_check name t o dim0 dim1 false p)
unfolding weight_check
weight_check-IsWeight file name t none dim0 dim1 p named known h =
    refused p unsupported (some name) _ h
weight_check-IsWeight file name t (some q) dim0 dim1 p named known h =
    let fresh = add_quant-Clean p t.ggml_type h in
    unless _ (add_quant p t.ggml_type) unsupported (some name) _ fresh λ supported.
      goes (add_quant p t.ggml_type) fresh (record {
        tensor = t;
        info = q;
        named = named;
        known = known;
        supported = ground (arith, supported);
      })

-- `require_tensor` with its dimensions checked.
pub require_tensor-IsMatrix :
    (file : View) (name : List ℕ) (dim0 dim1 : ℕ)
    → Sound (require_tensor file name dim0 dim1 true) (IsMatrix file name dim0 dim1)
unfolding require_tensor
require_tensor-IsMatrix file name dim0 dim1 = record {
  at = λ p h. elim (Option-cases (file.tensor name)) [
    | inl e ↦ rw (require_tensor, e) (refused p unsupported (some name) _ h)
    | inr (t, e) ↦
        rw (require_tensor, e)
          (weight_check-Outcome file name t (quant_info t.ggml_type) dim0 dim1 p e refl h)
  ];
}

-- `require_tensor` with its dimensions not checked.
pub require_tensor-IsWeight :
    (file : View) (name : List ℕ) (dim0 dim1 : ℕ)
    → Sound (require_tensor file name dim0 dim1 false) (IsWeight file name)
unfolding require_tensor
require_tensor-IsWeight file name dim0 dim1 = record {
  at = λ p h. elim (Option-cases (file.tensor name)) [
    | inl e ↦ rw (require_tensor, e) (refused p unsupported (some name) _ h)
    | inr (t, e) ↦
        rw (require_tensor, e)
          (weight_check-IsWeight file name t (quant_info t.ggml_type) dim0 dim1 p e refl h)
  ];
}

vector_check-Outcome :
    (file : View) (name : List ℕ) (t : Tensor) (o : Option Info) (want : ℕ) (p : Log)
    → file.tensor name ≡ some t
    → quant_info t.ggml_type ≡ o
    → Clean p
    → Outcome (IsVector file name want) (vector_check name t o want p)
unfolding vector_check
vector_check-Outcome file name t none want p named known h = refused p unsupported (some name) _ h
vector_check-Outcome file name t (some q) want p named known h =
    unless (not q.supported_scalar) p unsupported (some name) _ h λ supported.
      unless _ p format (some name) _ h λ shape.
        let (flat, size) = neither (not (length t.dims == 1)) (differs want t 0) shape in
        goes p h (record {
          weight = record {
            tensor = t;
            info = q;
            named = named;
            known = known;
            supported = ground (arith, supported);
          };
          flat = ground (arith, flat);
          size = same_size want t 0 size;
        })

pub require_vector-IsVector :
    (file : View) (name : List ℕ) (want : ℕ)
    → Sound (require_vector file name want) (IsVector file name want)
unfolding require_vector
require_vector-IsVector file name want = record {
  at = λ p h. elim (Option-cases (file.tensor name)) [
    | inl e ↦ rw (require_vector, e) (refused p unsupported (some name) _ h)
    | inr (t, e) ↦
        rw (require_vector, e)
          (vector_check-Outcome file name t (quant_info t.ggml_type) want p e refl h)
  ];
}
