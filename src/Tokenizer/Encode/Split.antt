-- ===== src/Tokenizer/Encode/Split.antt =====
-- The words of the GPT-2 split, one behind the other, are the text.
use etha_jhol.Common.{
  ℕ, zero, suc, ◌<◌, ◌≤◌, ◌≡◌, inl, inr, refl, ap, ◌∙◌, arith, Bool, true, false, ◌&&◌, not, List,
  [], ◌∷◌, ◌++◌, ◌==◌, if◌then◌else◌, length, length-append, concat, Bool-cases, All,
}
use etha_jhol.Tokenizer.Encode.{tc_space, tc_digit, tc_alpha, span, next_run, next_word, words}

span-whole : (test : ℕ → Bool) (s : List ℕ) → (span test s).0 ++ (span test s).1 ≡ s
unfolding span
span-whole test [] = refl
span-whole test (c ∷ s) = elim (Bool-cases (test c)) [
  | inl passed ↦ rw (span, passed) (ap (λ xs. c ∷ xs) (span-whole test s))
  | inr stopped ↦ rw (span, stopped) refl
]

-- A run that begins with a byte of its class is not empty.
span-takes :
    (test : ℕ → Bool) (c : ℕ) (s : List ℕ) → test c ≡ true → 0 < length (span test (c ∷ s)).0
unfolding span
span-takes test c s passed = rw (span, passed) (omega arith)

-- A split of the text whose first part is not empty, where the text is not.
abbrev IsCut : ℕ → List ℕ → List ℕ × List ℕ → Type 0
IsCut c s cut = (cut.0 ++ cut.1 ≡ c ∷ s) × (0 < length cut.0)

IsCut-if :
    (b : Bool) (c : ℕ) (s : List ℕ) (x y : List ℕ × List ℕ)
    → (b ≡ true → IsCut c s x)
    → (b ≡ false → IsCut c s y)
    → IsCut c s (if b then x else y)
IsCut-if true c s x y h k = h refl
IsCut-if false c s x y h k = k refl

span-IsCut : (test : ℕ → Bool) (c : ℕ) (s : List ℕ) → test c ≡ true → IsCut c s (span test (c ∷ s))
span-IsCut test c s h = (span-whole test (c ∷ s), span-takes test c s h)

next_run-IsCut : (c : ℕ) (s : List ℕ) → IsCut c s (next_run (c ∷ s))
unfolding next_run
next_run-IsCut c s = IsCut-if (tc_alpha c) c s _ _ (span-IsCut tc_alpha c s) λ other.
    IsCut-if (tc_digit c) c s _ _ (span-IsCut tc_digit c s) λ symbol.
      IsCut-if (not (tc_space c)) c s _ _
        (λ h.
          span-IsCut (λ x. not (tc_space x) && not (tc_alpha x) && not (tc_digit x)) c s
            (rw (h, other, symbol) refl))
        (λ h. span-IsCut tc_space c s (ground (arith, h)))

next_run-whole : (s : List ℕ) → (next_run s).0 ++ (next_run s).1 ≡ s
unfolding next_run
next_run-whole [] = refl
next_run-whole (c ∷ s) = (next_run-IsCut c s).0

next_word-IsCut : (c : ℕ) (s : List ℕ) → IsCut c s (next_word (c ∷ s))
unfolding next_word
next_word-IsCut c s =
    IsCut-if (c == b' ') c s _ _ (λ h. (ap (λ xs. c ∷ xs) (next_run-whole s), omega arith))
      (λ h. next_run-IsCut c s)

-- With as many rounds as the text has bytes, the split ends at the end of the text: the words, none of
-- them empty, are the text when laid end to end.
pub words-whole :
    (fuel : ℕ) (text : List ℕ)
    → length text ≤ fuel
    → (concat (words fuel text) ≡ text) × All (λ word. 0 < length word) (words fuel text)
unfolding words
words-whole zero [] h = (refl, tt)
words-whole zero (c ∷ s) h = absurd (omega arith)
words-whole (suc fuel) [] h = (refl, tt)
words-whole (suc fuel) (c ∷ s) h =
    let (whole, takes) = next_word-IsCut c s in
    let word = next_word (c ∷ s) in
    let shorter : length word.1 ≤ fuel =
      omega (arith, length-append word.0 word.1, ap length whole, takes, h) in
    let (rest, filled) = words-whole fuel word.1 shorter in
    (ap (λ xs. word.0 ++ xs) rest ∙ whole, (takes, filled))
