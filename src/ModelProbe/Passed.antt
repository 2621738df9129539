-- ===== src/ModelProbe/Passed.antt =====
-- A probe that passes has seen every tensor that an evaluation of the model reads.
use etha_jhol.Common.{ℕ, ◌<◌, ◌≡◌, refl, true, false, none, some, List, All}
use etha_jhol.Common.Result.{format, unsupported}
use etha_jhol.Common.Text.{ascii}
use etha_jhol.Gguf.Layout.{Tensor}
use etha_jhol.ModelProbe.Accepted.{IsComplete, IsHead, Tensors}
use etha_jhol.ModelProbe.Checks.{has_tensor, declared}
use etha_jhol.ModelProbe.Layers.{unhandled_tensors, head_of, dequantizes}
use etha_jhol.ModelProbe.Run.{no_geometry, probe_embedding, refused_probe, model_probe}
use etha_jhol.ModelProbe.Meta.{View, no_architecture, missing, new_log, Geometry, arch_supported}
use etha_jhol.ModelProbe.Shapes.{IsWeight}
use etha_jhol.ModelProbe.Supported.{Layer}

pub record IsSupported (file : View) (g : Geometry) : Type 0 where
  pub arch : List ℕ
  pub embedding : Tensor
  pub declared : file.meta (ascii "general.architecture") ≡ some arch
  pub known : arch_supported arch ≡ true
  pub complete : IsComplete g
  pub absent : All (λ name. has_tensor file name ≡ false) unhandled_tensors
  pub embedded : file.tensor (ascii "token_embd.weight") ≡ some embedding
  pub dequantizes : dequantizes embedding.ggml_type ≡ true
  pub norm : IsWeight file (ascii "output_norm.weight")
  pub head : IsHead g (head_of file embedding)
  pub layer : (l : ℕ) → l < g.n_layer → Layer file g l

module _ (file : View) (arch : List ℕ) (te : Tensor) where
  record Body (g : Geometry) : Type 0 where
    complete : IsComplete g
    absent : All (λ name. has_tensor file name ≡ false) unhandled_tensors
    tensors : Tensors file arch te g

pub model_probe-no_architecture :
    (file : View)
    → file.meta (ascii "general.architecture") ≡ none
    → model_probe file ≡ refused_probe no_geometry new_log format none no_architecture
unfolding model_probe
model_probe-no_architecture file e = rw (model_probe, e) refl

pub model_probe-no_embedding :
    (file : View) (arch : List ℕ)
    → file.meta (ascii "general.architecture") ≡ some arch
    → file.tensor (ascii "token_embd.weight") ≡ none
    → model_probe file
      ≡ refused_probe
          (declared file arch)
          new_log
          unsupported
          (some (ascii "token_embd.weight"))
          missing
unfolding model_probe
model_probe-no_embedding file arch e lacks = rw (model_probe, e, lacks) refl

pub model_probe-embedding :
    (file : View) (arch : List ℕ) (te : Tensor)
    → file.meta (ascii "general.architecture") ≡ some arch
    → file.tensor (ascii "token_embd.weight") ≡ some te
    → model_probe file ≡ probe_embedding file arch te (declared file arch)
unfolding model_probe
model_probe-embedding file arch te e has = rw (model_probe, e, has) refl
