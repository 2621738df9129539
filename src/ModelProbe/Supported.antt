-- ===== src/ModelProbe/Supported.antt =====
-- What a passed probe guarantees of the tensors that the evaluator reads.
use etha_jhol.Common.{
  ℕ, zero, suc, Option, none, some, ◌+◌, ◌<◌, ◌≡◌, ◌⊎◌, inl, inr, refl, arith, Bool, true, false,
  List, if◌then◌else◌,
}
use etha_jhol.Common.Result.{format}
use etha_jhol.Common.Text.{ascii}
use etha_jhol.ModelProbe.Checks.{go, Check, layer_name, has_tensor}
use etha_jhol.ModelProbe.Layers.{
  q_dim, k_dim, attention_check, sub_norm_check, experts_check, gate_check, dense_check,
  feed_forward_check, layer_check, layers_from, stack_fits,
}
use etha_jhol.Gguf.Layout.{Tensor}
use etha_jhol.ModelProbe.Meta.{View, Geometry}
use etha_jhol.ModelProbe.Rules.{goes, Sound, >=>-Sound, weaken-Sound, unless}
use etha_jhol.ModelProbe.Shapes.{
  IsWeight, IsMatrix, IsVector, require_tensor-IsMatrix, require_tensor-IsWeight,
  require_vector-IsVector,
}

pub record Attention (file : View) (g : Geometry) (l : ℕ) : Type 0 where
  pub attn_norm : IsWeight file (layer_name l (ascii "attn_norm.weight"))
  pub attn_q : IsMatrix file (layer_name l (ascii "attn_q.weight")) g.n_embd (q_dim g)
  pub attn_k : IsMatrix file (layer_name l (ascii "attn_k.weight")) g.n_embd (k_dim g)
  pub attn_v : IsMatrix file (layer_name l (ascii "attn_v.weight")) g.n_embd (k_dim g)
  pub attn_output : IsMatrix file (layer_name l (ascii "attn_output.weight")) (q_dim g) g.n_embd
  pub ffn_norm : IsWeight file (layer_name l (ascii "ffn_norm.weight"))

pub record Dense (file : View) (g : Geometry) (l : ℕ) : Type 0 where
  pub gate :
      (has_tensor file (ascii "blk.0.ffn_gate.weight") ≡ false)
      ⊎ IsMatrix file (layer_name l (ascii "ffn_gate.weight")) g.n_embd g.n_ff
  pub up : IsMatrix file (layer_name l (ascii "ffn_up.weight")) g.n_embd g.n_ff
  pub down : IsMatrix file (layer_name l (ascii "ffn_down.weight")) g.n_ff g.n_embd

pub record Experts (file : View) (g : Geometry) (l : ℕ) : Type 0 where
  pub route : IsMatrix file (layer_name l (ascii "ffn_gate_inp.weight")) g.n_embd g.n_expert
  pub gate : IsMatrix file (layer_name l (ascii "ffn_gate_exps.weight")) g.n_embd 0
  pub up : IsMatrix file (layer_name l (ascii "ffn_up_exps.weight")) g.n_embd 0
  pub down : IsMatrix file (layer_name l (ascii "ffn_down_exps.weight")) g.n_ff g.n_embd

pub record SubNorms (file : View) (g : Geometry) (l : ℕ) : Type 0 where
  pub attention : IsVector file (layer_name l (ascii "attn_sub_norm.weight")) (q_dim g)
  pub feed_forward : IsVector file (layer_name l (ascii "ffn_sub_norm.weight")) g.n_ff

-- The tensors of layer `l` that the evaluator reads.
pub record Layer (file : View) (g : Geometry) (l : ℕ) : Type 0 where
  pub attention : Attention file g l
  pub sub_norms : (g.has_sub_norm ≡ false) ⊎ SubNorms file g l
  pub feed_forward : ((g.is_moe ≡ true) × Experts file g l) ⊎ ((g.is_moe ≡ false) × Dense file g l)

attention_check-Sound :
    (file : View) (g : Geometry) (l : ℕ) → Sound (attention_check file g l) (Attention file g l)
unfolding attention_check
attention_check-Sound file g l =
    let weight =
      λ (suffix : List ℕ). require_tensor-IsWeight file (layer_name l suffix) g.n_embd 0 in
    let matrix = λ (suffix : List ℕ) (dim0 dim1 : ℕ).
      require_tensor-IsMatrix file (layer_name l suffix) dim0 dim1 in
    weaken-Sound
      (λ (a, (b, (c, (d, (e, f))))). record {
        attn_norm = a;
        attn_q = b;
        attn_k = c;
        attn_v = d;
        attn_output = e;
        ffn_norm = f;
      })
      (>=>-Sound (weight (ascii "attn_norm.weight")) (
        >=>-Sound (matrix (ascii "attn_q.weight") g.n_embd (q_dim g)) (
          >=>-Sound (matrix (ascii "attn_k.weight") g.n_embd (k_dim g)) (
            >=>-Sound (matrix (ascii "attn_v.weight") g.n_embd (k_dim g)) (
              >=>-Sound (matrix (ascii "attn_output.weight") (q_dim g) g.n_embd)
                (weight (ascii "ffn_norm.weight")))))))

-- A check that is made only under a condition.
only_if :
    {P : Type 0} (b : Bool) {c : Check}
    → Sound c P
    → Sound (λ p. if b then c p else go p) ((b ≡ false) ⊎ P)
only_if true h = weaken-Sound inr h
only_if false h = record { at = λ p fresh. goes p fresh (inl refl) }

either :
    {P Q : Type 0} (b : Bool) {c d : Check}
    → Sound c P
    → Sound d Q
    → Sound (λ p. if b then c p else d p) (((b ≡ true) × P) ⊎ ((b ≡ false) × Q))
either true h k = weaken-Sound (λ x. inl (refl, x)) h
either false h k = weaken-Sound (λ x. inr (refl, x)) k

sub_norm_check-Sound :
    (file : View) (g : Geometry) (l : ℕ)
    → Sound (sub_norm_check file g l) ((g.has_sub_norm ≡ false) ⊎ SubNorms file g l)
unfolding sub_norm_check
sub_norm_check-Sound file g l = only_if g.has_sub_norm (
    weaken-Sound (λ (a, f). record { attention = a; feed_forward = f })
      (>=>-Sound
        (require_vector-IsVector file (layer_name l (ascii "attn_sub_norm.weight")) (q_dim g))
        (require_vector-IsVector file (layer_name l (ascii "ffn_sub_norm.weight")) g.n_ff)))

stack-Sound : (g : Geometry) (o : Option Tensor) → Sound (stack_fits g o) Unit
unfolding stack_fits
stack-Sound g none = record { at = λ p fresh. goes p fresh tt }
stack-Sound g (some ge) = record {
  at = λ p fresh. unless _ p format _ _ fresh λ _. goes p fresh tt;
}

experts_check-Sound :
    (file : View) (g : Geometry) (l : ℕ) → Sound (experts_check file g l) (Experts file g l)
unfolding experts_check
experts_check-Sound file g l =
    let matrix = λ (suffix : List ℕ) (dim0 dim1 : ℕ).
      require_tensor-IsMatrix file (layer_name l suffix) dim0 dim1 in
    weaken-Sound (λ (a, (b, (c, (d, _)))). record { route = a; gate = b; up = c; down = d })
      (>=>-Sound (matrix (ascii "ffn_gate_inp.weight") g.n_embd g.n_expert) (
        >=>-Sound (matrix (ascii "ffn_gate_exps.weight") g.n_embd 0) (
          >=>-Sound (matrix (ascii "ffn_up_exps.weight") g.n_embd 0)
            (>=>-Sound (matrix (ascii "ffn_down_exps.weight") g.n_ff g.n_embd) (stack-Sound g _)))))

dense_check-Sound :
    (file : View) (g : Geometry) (l : ℕ) → Sound (dense_check file g l) (Dense file g l)
unfolding dense_check gate_check
dense_check-Sound file g l =
    let matrix = λ (suffix : List ℕ) (dim0 dim1 : ℕ).
      require_tensor-IsMatrix file (layer_name l suffix) dim0 dim1 in
    weaken-Sound (λ (a, (b, c)). record { gate = a; up = b; down = c })
      (>=>-Sound
        (only_if (has_tensor file (ascii "blk.0.ffn_gate.weight"))
          (matrix (ascii "ffn_gate.weight") g.n_embd g.n_ff))
        (>=>-Sound (matrix (ascii "ffn_up.weight") g.n_embd g.n_ff)
          (matrix (ascii "ffn_down.weight") g.n_ff g.n_embd)))

layer_check-Sound :
    (file : View) (g : Geometry) (l : ℕ) → Sound (layer_check file g l) (Layer file g l)
unfolding layer_check feed_forward_check
layer_check-Sound file g l =
    weaken-Sound (λ (a, (s, f)). record { attention = a; sub_norms = s; feed_forward = f })
      (>=>-Sound (attention_check-Sound file g l) (
        >=>-Sound (sub_norm_check-Sound file g l)
          (either g.is_moe (experts_check-Sound file g l) (dense_check-Sound file g l))))

-- Every layer from `l` on, `left` of them.
abbrev Layers : View → Geometry → ℕ → ℕ → Type 0
Layers file g l left = (d : ℕ) → d < left → Layer file g (l + d)

pub layers_from-Sound :
    (file : View) (g : Geometry) (l left : ℕ)
    → Sound (layers_from file g l left) (Layers file g l left)
unfolding layers_from
layers_from-Sound file g l zero = record {
  at = λ p fresh. goes p fresh (λ d lt. absurd (omega arith));
}
layers_from-Sound file g l (suc left) =
    weaken-Sound (λ (here, rest). cons here rest)
      (>=>-Sound (layer_check-Sound file g l) (layers_from-Sound file g (l + 1) left))
  where
    cons : Layer file g l → Layers file g (l + 1) left → Layers file g l (suc left)
    cons here rest zero lt = let e : l + 0 ≡ l = omega arith in rw e here
    cons here rest (suc d) lt =
        let e : l + suc d ≡ l + 1 + d = omega arith in rw e (rest d (omega arith))
