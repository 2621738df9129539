-- ===== src/Speculative/Greedy/OneHot.antt =====
-- The scans for the largest entry: the two forms agree, and find the 1 of a one-hot distribution.
use etha_jhol.Common.{
  ℕ, zero, suc, ◌+◌, ◌<◌, ◌≡◌, refl, sym, ap, ◌∙◌, arith, false, List, [], ◌∷◌, length, get_or, set,
  replicate, if◌then◌else◌, inl, inr, Bool-cases, subst,
}
use etha_jhol.Common.Floats.{Floats, IsOrdered}
use etha_jhol.Speculative.{best_from, largest, argmax_from, argmax, softmax, dist_from_logits}

module _ {F D : Type 0} (fl : Floats F D) where
  open fl use {nought, one, lt, le}

  best_from-eq-argmax_from :
      (whole xs : List F) (best i : ℕ)
      → ((k : ℕ) → get_or whole (i + k) nought ≡ get_or xs k nought)
      → best_from fl (get_or whole best nought) best i xs ≡ argmax_from fl whole best i xs
  unfolding best_from argmax_from
  best_from-eq-argmax_from whole [] best i tail = refl
  best_from-eq-argmax_from whole (x ∷ xs) best i tail =
      let here : get_or whole i nought ≡ x =
        ap (λ k. get_or whole k nought) (omega arith) ∙ tail 0 in
      let next : (k : ℕ) → get_or whole (suc i + k) nought ≡ get_or xs k nought =
        λ k. ap (λ m. get_or whole m nought) (omega arith) ∙ tail (suc k) in
      elim (Bool-cases (lt (get_or whole best nought) x)) [
        | inl more ↦ rw more (rw here at (best_from-eq-argmax_from whole xs i (suc i) next))
        | inr less ↦ rw less (best_from-eq-argmax_from whole xs best (suc i) next)
      ]

  pub largest-eq-argmax : (xs : List F) → largest fl xs ≡ argmax fl xs
  unfolding largest argmax
  largest-eq-argmax [] = refl
  largest-eq-argmax (x ∷ xs) =
      best_from-eq-argmax_from (x ∷ xs) xs 0 1
        (λ k. ap (λ m. get_or (x ∷ xs) m nought) {x = 1 + k} {y = suc k} (omega arith))

  best_from-lt :
      (xs : List F) (value : F) (best i : ℕ)
      → best < i
      → best_from fl value best i xs < i + length xs
  unfolding best_from
  best_from-lt [] value best i h = omega arith
  best_from-lt (x ∷ xs) value best i h = elim (Bool-cases (lt value x)) [
    | inl more ↦ rw more (omega (arith, best_from-lt xs x i (suc i) (omega arith)))
    | inr less ↦ rw less (omega (arith, best_from-lt xs value best (suc i) (omega arith)))
  ]

  pub largest-lt-length : (xs : List F) → 0 < length xs → largest fl xs < length xs
  unfolding largest
  largest-lt-length [] h = h
  largest-lt-length (x ∷ xs) h = omega (arith, best_from-lt xs x 0 1 (omega arith))

  best_from-noughts :
      (n : ℕ) (value : F) (best i : ℕ)
      → lt value nought ≡ false
      → best_from fl value best i (replicate n nought) ≡ best
  unfolding best_from
  best_from-noughts zero value best i h = refl
  best_from-noughts (suc n) value best i h =
      rw (h, best_from) (best_from-noughts n value best (suc i) h)

  module _ (ordered : IsOrdered fl) where
    open ordered use {nought_le, nought_lt, nought-lt-one, one_lt, one-lt-nought}

    best_from-one :
        (n k best i : ℕ)
        → k < n
        → best_from fl nought best i (set (replicate n nought) k one) ≡ i + k
    unfolding best_from
    best_from-one zero k best i h = elim h [ ]
    best_from-one (suc n) zero best i h =
        rw (nought-lt-one, best_from)
          (best_from-noughts n one i (suc i) one-lt-nought ∙ omega arith)
    best_from-one (suc n) (suc k) best i h =
        rw (nought_lt, best_from) (best_from-one n k best (suc i) (omega arith) ∙ omega arith)

    largest-one_hot : (n k : ℕ) → k < n → largest fl (set (replicate n nought) k one) ≡ k
    unfolding largest
    largest-one_hot zero k h = elim h [ ]
    largest-one_hot (suc n) zero h = best_from-noughts n one 0 1 one-lt-nought
    largest-one_hot (suc n) (suc k) h = best_from-one n k 0 1 (omega arith) ∙ omega arith

    -- At temperature 0, the distribution's argmax is the first of the largest logits.
    pub argmax-one_hot :
        (n_vocab : ℕ) (logits : List F)
        → length logits ≡ n_vocab
        → 0 < n_vocab
        → argmax fl (dist_from_logits fl n_vocab nought logits) ≡ largest fl logits
    unfolding dist_from_logits
    argmax-one_hot n_vocab logits same pos =
        sym (largest-eq-argmax _)
        ∙ ap
            (λ b. largest fl (
              if b
              then set (replicate n_vocab nought) (largest fl logits) one
              else softmax fl nought logits))
            nought_le
        ∙ largest-one_hot n_vocab (largest fl logits)
            (subst (λ n. largest fl logits < n) same (largest-lt-length logits (omega arith)))
