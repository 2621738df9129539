-- ===== src/ModelProbe/Accepted.antt =====
-- What a passed probe guarantees of the model as a whole.
use etha_jhol.Common.{
  ℕ, ◌<◌, ◌≤◌, ◌≡◌, refl, subst, arith, Bool, true, false, ◌||◌, not, Option, none, some, List, [],
  ◌∷◌, ltb, ◌==◌, if◌then◌else◌, length, ltb→ge, All,
}
use etha_jhol.Common.Result.{Status, format, unsupported}
use etha_jhol.Common.Text.{ascii}
use etha_jhol.Gguf.Layout.{Tensor}
use etha_jhol.ModelProbe.Checks.{Verdict, go, refuse, dim, has_tensor}
use etha_jhol.ModelProbe.Layers.{
  geometry_check, absent_check, unhandled_tensors, packed_check, shared_check, arch_check,
  head_check, head_of, embedding_check, dequantizes,
}
use etha_jhol.ModelProbe.Run.{layout_check, tensors_check}
use etha_jhol.ModelProbe.Meta.{
  View, Cause, no_dequantizer, wrong_head, unknown_architecture, add_quant, Log, Geometry,
  arch_supported,
}
use etha_jhol.ModelProbe.Rules.{
  Clean, Outcome, goes, Sound, refused, >=>-Sound, weaken-Sound, add_quant-Clean, unless, neither,
}
use etha_jhol.ModelProbe.Shapes.{IsWeight, require_tensor-IsWeight}
use etha_jhol.ModelProbe.Supported.{Layer, layers_from-Sound}

-- The numbers that no evaluation goes without.
pub record IsComplete (g : Geometry) : Type 0 where
  pub n_layer : (g.n_layer == 0) ≡ false
  pub n_embd : (g.n_embd == 0) ≡ false
  pub head_dim : (g.head_dim == 0) ≡ false

-- The tensor that gives the logits.
pub record IsHead (g : Geometry) (lm : Tensor) : Type 0 where
  pub dequantizes : dequantizes lm.ggml_type ≡ true
  pub wide : 2 ≤ length lm.dims
  pub inputs : dim lm 0 ≡ g.n_embd

-- A check that refuses under the test `b`, and a fact of the other case.
guard-Sound :
    {P : Type 0} (b : Bool) (st : Status) (tensor : Option (List ℕ)) (cause : Cause)
    → (b ≡ false → P)
    → Sound (λ p. if b then refuse st tensor cause p else go p) P
guard-Sound b st tensor cause k = record {
  at = λ p fresh. unless b p st tensor cause fresh λ e. goes p fresh (k e);
}

accept-Sound :
    (b : Bool) (st : Status) (tensor : Option (List ℕ)) (cause : Cause)
    → Sound (λ p. if b then go p else refuse st tensor cause p) (b ≡ true)
accept-Sound true st tensor cause = record { at = λ p fresh. goes p fresh refl }
accept-Sound false st tensor cause = record { at = λ p fresh. refused p st tensor cause fresh }

geometry-Sound : (g : Geometry) → Sound (geometry_check g) (IsComplete g)
unfolding geometry_check
geometry-Sound g =
    guard-Sound ((g.n_layer == 0) || (g.n_embd == 0) || (g.head_dim == 0)) format none _ λ e.
      let (rest, dims) = neither ((g.n_layer == 0) || (g.n_embd == 0)) (g.head_dim == 0) e in
      let (layers, embd) = neither (g.n_layer == 0) (g.n_embd == 0) rest in
      record { n_layer = layers; n_embd = embd; head_dim = dims }

absent-Sound :
    (file : View) (names : List (List ℕ))
    → Sound (absent_check file names) (All (λ name. has_tensor file name ≡ false) names)
unfolding absent_check
absent-Sound file [] = record { at = λ p fresh. goes p fresh tt }
absent-Sound file (name ∷ names) = record {
  at = λ p fresh.
      unless (has_tensor file name) p unsupported (some name) _ fresh
        λ e. (weaken-Sound (λ rest. (e, rest)) (absent-Sound file names)).at p fresh;
}

packed-Sound : (file : View) (g : Geometry) → Sound (packed_check file g) Unit
unfolding packed_check
packed-Sound file g = guard-Sound _ unsupported _ _ λ _. tt

shared-Sound : (g : Geometry) → Sound (shared_check g) Unit
unfolding shared_check
shared-Sound g = guard-Sound _ format _ _ λ _. tt

arch-Sound : (arch : List ℕ) → Sound (arch_check arch) (arch_supported arch ≡ true)
unfolding arch_check
arch-Sound arch = accept-Sound (arch_supported arch) unsupported none unknown_architecture

-- The check on the type of a tensor that the model keeps whole.
typed :
    {P : Type 0} (type : ℕ) (p : Log) (tensor : Option (List ℕ)) {s : Verdict}
    → Clean p
    → (dequantizes type ≡ true → Outcome P s)
    → Outcome P (if not (dequantizes type) then refuse unsupported tensor no_dequantizer p else s)
typed type p tensor h k =
    unless (not (dequantizes type)) p unsupported tensor no_dequantizer h λ e. k (ground (arith, e))

head_check-Sound : (g : Geometry) (lm : Tensor) → Sound (head_check g lm) (IsHead g lm)
unfolding head_check
head_check-Sound g lm = record {
  at = λ p h.
      let fresh = add_quant-Clean p lm.ggml_type h in
      let seen = add_quant p lm.ggml_type in
      let narrow = ltb (length lm.dims) 2 in
      let other = not (dim lm 0 == g.n_embd) in
      typed lm.ggml_type seen (some lm.name) fresh λ known.
        unless (narrow || other) seen format (some lm.name) wrong_head fresh λ shape.
          let (wide, inputs) = neither narrow other shape in
          goes seen fresh (record {
            dequantizes = known;
            wide = ltb→ge (length lm.dims) 2 wide;
            inputs = ground (arith, inputs);
          });
}

pub embedding_check-Sound :
    (te : Tensor) → Sound (embedding_check te) (dequantizes te.ggml_type ≡ true)
unfolding embedding_check
embedding_check-Sound te = record {
  at = λ p h.
      (accept-Sound (dequantizes te.ggml_type) unsupported (some (ascii "token_embd.weight"))
          no_dequantizer).at
        (add_quant p te.ggml_type) (add_quant-Clean p te.ggml_type h);
}

pub layout_check-Sound :
    (file : View) (g : Geometry)
    → Sound
        (layout_check file g)
        (IsComplete g × All (λ name. has_tensor file name ≡ false) unhandled_tensors)
unfolding layout_check
layout_check-Sound file g =
    weaken-Sound (λ (c, (a, _)). (c, a))
      (>=>-Sound (geometry-Sound g) (
        >=>-Sound (absent-Sound file unhandled_tensors)
          (>=>-Sound (packed-Sound file g) (shared-Sound g))))

-- What the checks behind the softcap find.
pub record Tensors (file : View) (arch : List ℕ) (te : Tensor) (g : Geometry) : Type 0 where
  pub known : arch_supported arch ≡ true
  pub norm : IsWeight file (ascii "output_norm.weight")
  pub head : IsHead g (head_of file te)
  pub layer : (l : ℕ) → l < g.n_layer → Layer file g l

pub tensors_check-Sound :
    (file : View) (arch : List ℕ) (te : Tensor) (g : Geometry)
    → Sound (tensors_check file arch te g) (Tensors file arch te g)
unfolding tensors_check
tensors_check-Sound file arch te g =
    weaken-Sound
      (λ (k, (n, (h, l))). record {
        known = k;
        norm = n;
        head = h;
        layer = λ d lt. subst (Layer file g) (omega arith) (l d lt);
      })
      (>=>-Sound (arch-Sound arch) (
        >=>-Sound (require_tensor-IsWeight file (ascii "output_norm.weight") g.n_embd 0) (
          >=>-Sound (head_check-Sound g (head_of file te)) (layers_from-Sound file g 0 g.n_layer))))
