-- ===== src/Tokenizer/Load/Flags.antt =====
-- The flags of the metadata against the text that src/gguf.c makes of a boolean.
use etha_jhol.Common.{
  ℕ, ◌≡◌, inl, inr, refl, ap, Bool, false, not, Option, some, List, ◌==◌, Bool-cases,
}
use etha_jhol.Gguf.Value.{bool_text}
use etha_jhol.Tokenizer.Load.{long_at, meta_bool, flag_of}

bool_text-long_at : (b : ℕ) → (long_at (bool_text b)).0 ≡ 0
unfolding bool_text long_at
bool_text-long_at b = elim (Bool-cases (b == 0)) [
  | inl zero_byte ↦ rw (zero_byte, bool_text) refl
  | inr other ↦ rw (other, bool_text) refl
]

bool_text-meta_bool : (b : ℕ) (dflt : Bool) → meta_bool (bool_text b) dflt ≡ not (b == 0)
unfolding bool_text meta_bool
bool_text-meta_bool b dflt = elim (Bool-cases (b == 0)) [
  | inl zero_byte ↦ rw (zero_byte, bool_text) refl
  | inr other ↦ rw (other, bool_text) refl
]

-- Of the text that the container gives for a boolean of one byte, `meta_bool` reads the boolean, but the
-- flags for the dummy prefix and for extra spaces, which are read with `strtol`, are false whatever it is.
pub flag_of-bool_text :
    (meta : List ℕ → Option (List ℕ)) (key : List ℕ) (b : ℕ)
    → meta key ≡ some (bool_text b)
    → (flag_of meta key ≡ false) × ((dflt : Bool) → meta_bool (bool_text b) dflt ≡ not (b == 0))
unfolding flag_of
flag_of-bool_text meta key b there =
    (rw (there, flag_of) (ap (λ v. not (v == 0)) (bool_text-long_at b)), bool_text-meta_bool b)
