-- ===== src/Tests/Speculative.antt =====
-- Speculative decoding with small models whose floats are numbers, and whose states are the last positions.
use etha_jhol.Common.{
  ℕ, ◌+◌, ◌-◌, ◌*◌, ◌%◌, ◌≤◌, ◌≡◌, refl, arith, true, none, some, [], ◌∷◌, ltb, leb, map, zero, suc,
  ◌<◌, ◌==◌, if◌then◌else◌,
}
use etha_jhol.Common.Floats.{Floats, IsOrdered}
use etha_jhol.Speculative.{Graph, Config, clamped, draft_from, speculative_step}
use etha_jhol.Speculative.Bounds.{IsWithin, speculative_step-IsWithin}
use etha_jhol.Speculative.Greedy.{speculative_step-IsPlain}
use etha_jhol.Speculative.Plain.{FillsLogits, IsPlain, IsApart}

abbrev floats : Floats ℕ ℕ
floats = record {
  nought = 0;
  one = 1;
  lt = ltb;
  le = leb;
  add = λ a b. a + b;
  sub = λ a b. a - b;
  mul = λ a b. a * b;
  div = λ a b. a;
  exp = λ a. a;
  is_finite = λ a. true;
  unit = λ n. n % 2;
  widen = λ a. a;
  nought_d = 0;
  lt_d = ltb;
  le_d = leb;
  add_d = λ a b. a + b;
  mul_d = λ a b. a * b;
  inverse = λ a. 1;
}

floats-IsOrdered : IsOrdered floats
floats-IsOrdered = record {
  nought_le = refl;
  nought_lt = refl;
  nought-lt-one = refl;
  one_lt = refl;
  one-lt-nought = refl;
}

-- Behind an even token the target goes on with 1, and behind an odd one with 2.
abbrev target_alone : Graph ℕ ℕ
target_alone = record { n_vocab = 3; decode = λ t token pos. (some (0 ∷ token % 2 ∷ 1 ∷ []), pos) }

abbrev target : Graph ℕ (ℕ × ℕ)
target = record { n_vocab = 3; decode = λ s token pos. (some (0 ∷ token % 2 ∷ 1 ∷ []), (s.0, pos)) }

-- The draft goes on with 2 at position 0, and with 0 behind it.
abbrev draft : Graph ℕ (ℕ × ℕ)
draft = record { n_vocab = 3; decode = λ s token pos. (some (pos ∷ 0 ∷ 1 ∷ []), (pos, s.1)) }

abbrev view : ℕ × ℕ → ℕ
view s = s.1

target-IsApart : IsApart floats draft target target_alone view
target-IsApart = record {
  logits = λ s token pos. refl;
  target = λ s token pos. refl;
  draft = λ s token pos. refl;
}

target-FillsLogits : FillsLogits target
target-FillsLogits s token pos logits h = ground arith

draft-FillsLogits : FillsLogits draft
draft-FillsLogits s token pos logits h = ground arith

abbrev cold : Config ℕ
cold = record { n_draft = 3; temperature = 0; rng = none }

abbrev warm : Config ℕ
warm = record { n_draft = 3; temperature = 1; rng = some 7 }

-- The second proposal is replaced by the target's token.
step_run : (speculative_step floats draft target cold 0 0 8 (0, 0)).accepted ≡ 2 ∷ 2 ∷ []
unfolding speculative_step
step_run = refl

speculative_step-IsPlain_example :
    (n : ℕ) × (1 ≤ n)
    × (n ≤ clamped floats 3 8)
    × IsPlain floats target_alone view n 0 0 0
        (speculative_step floats draft target cold 0 0 8 (0, 0))
speculative_step-IsPlain_example =
    speculative_step-IsPlain floats draft target target_alone view target-IsApart floats-IsOrdered
      (omega arith) target-FillsLogits cold 0 0 8 (0, 0) (0 ∷ 0 ∷ 1 ∷ []) refl (omega arith) refl
      refl

speculative_step-IsWithin_example :
    IsWithin 3
      (clamped floats 3 8)
      (map (λ p. p.0) (draft_from floats draft target 1 (clamped floats 3 8) 0 0 (0, 0) 7).0)
      (speculative_step floats draft target warm 0 0 8 (0, 0))
speculative_step-IsWithin_example =
    speculative_step-IsWithin floats draft target (omega arith) draft-FillsLogits target-FillsLogits
      warm 0 0 8 (0, 0)

-- A cache of tokens by position.
abbrev before : (ℕ → ℕ) → ℕ → ℕ
before s zero = 0
before s (suc pos) = s pos

abbrev cached : Graph ℕ (ℕ → ℕ)
cached = record {
  n_vocab = 3;
  decode = λ s token pos.
      (some (before s pos ∷ token % 2 ∷ 1 ∷ []), λ i. if i == pos then token else s i);
}

abbrev Agrees : ℕ → (ℕ → ℕ) → (ℕ → ℕ) → Type 0
Agrees k s t = (i : ℕ) → i < k → s i ≡ t i
