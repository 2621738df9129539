-- ===== src/Speculative/Draws.antt =====
-- The distributions have an entry for each token, and the draws find one of them.
use etha_jhol.Common.{
  ℕ, suc, ◌+◌, ◌-◌, ◌≤◌, ◌<◌, ◌≡◌, refl, ap, ◌∙◌, arith, Option, none, some, List, [], ◌∷◌, length,
  inl, inr, Bool-cases, map, length-set, length-replicate,
}
use etha_jhol.Common.Floats.{Floats}
use etha_jhol.Speculative.{
  dist_from_logits, draw_from, draw_target, draw_residual, differences, sample_residual,
  sample_from, softmax, weight, maximum, total_from, residual_from,
}

module _ {F D : Type 0} (fl : Floats F D) where
  open fl use {nought, one, lt, le, le_d, lt_d, nought_d}

  length-map : (f : F → F) (xs : List F) → length (map f xs) ≡ length xs
  length-map f [] = refl
  length-map f (x ∷ xs) = ap suc (length-map f xs)

  length-softmax : (temp : F) (xs : List F) → length (softmax fl temp xs) ≡ length xs
  unfolding softmax
  length-softmax temp [] = refl
  length-softmax temp (x ∷ xs) = elim (Bool-cases (lt_d nought_d total)) [
    | inl usable ↦ rw usable (length-map _ ps ∙ length-map _ (x ∷ xs))
    | inr empty ↦ rw empty (length-map _ (x ∷ xs))
  ]
    where
      ps : List F
      ps = map (weight fl temp (maximum fl x xs)) (x ∷ xs)

      total : D
      total = total_from fl nought_d ps

  pub length-dist :
      (n_vocab : ℕ) (temp : F) (logits : List F)
      → length logits ≡ n_vocab
      → length (dist_from_logits fl n_vocab temp logits) ≡ n_vocab
  unfolding dist_from_logits
  length-dist n_vocab temp logits same = elim (Bool-cases (le temp nought)) [
    | inl cold ↦ rw cold (length-set _ _ _ ∙ length-replicate n_vocab nought)
    | inr warm ↦ rw warm (length-softmax temp logits ∙ same)
  ]

  -- What a draw finds is an index of the list.
  abbrev IsIndex : ℕ → ℕ → Option ℕ → Type 0
  IsIndex i n none = Unit {0}
  IsIndex i n (some k) = k < i + n

  later : (i n : ℕ) (o : Option ℕ) → IsIndex (suc i) n o → IsIndex i (suc n) o
  later i n none h = tt
  later i n (some k) h = omega arith

  draw_from-IsIndex :
      (r acc : F) (i : ℕ) (ps : List F) → IsIndex i (length ps) (draw_from fl r acc i ps)
  unfolding draw_from
  draw_from-IsIndex r acc i [] = tt
  draw_from-IsIndex r acc i (p ∷ ps) = elim (Bool-cases (le r (fl.add acc p))) [
    | inl hit ↦ rw hit (omega arith)
    | inr more ↦ rw more (later i _ _ (draw_from-IsIndex r (fl.add acc p) (suc i) ps))
  ]

  draw_target-IsIndex :
      (r acc : D) (i : ℕ) (ps : List F) → IsIndex i (length ps) (draw_target fl r acc i ps)
  unfolding draw_target
  draw_target-IsIndex r acc i [] = tt
  draw_target-IsIndex r acc i (p ∷ ps) = elim (Bool-cases (le_d r (fl.add_d acc (fl.widen p)))) [
    | inl hit ↦ rw hit (omega arith)
    | inr more ↦
        rw more (later i _ _ (draw_target-IsIndex r (fl.add_d acc (fl.widen p)) (suc i) ps))
  ]

  draw_residual-IsIndex :
      (r acc : D) (i : ℕ) (ds : List F) → IsIndex i (length ds) (draw_residual fl r acc i ds)
  unfolding draw_residual
  draw_residual-IsIndex r acc i [] = tt
  draw_residual-IsIndex r acc i (d ∷ ds) = elim (Bool-cases (lt nought d)) [
    | inl above ↦ rw above (elim (Bool-cases (le_d r (fl.add_d acc (fl.widen d)))) [
      | inl hit ↦ rw hit (omega arith)
      | inr more ↦
          rw more (later i _ _ (draw_residual-IsIndex r (fl.add_d acc (fl.widen d)) (suc i) ds))
    ])
    | inr passed ↦ rw passed (later i _ _ (draw_residual-IsIndex r acc (suc i) ds))
  ]

  length-differences : (ds ts : List F) → length (differences fl ds ts) ≤ length ts
  unfolding differences
  length-differences [] ts = omega arith
  length-differences (d ∷ ds) [] = omega arith
  length-differences (d ∷ ds) (t ∷ ts) = omega (arith, length-differences ds ts)

  found-lt :
      (n n_vocab other : ℕ) (o : Option ℕ)
      → IsIndex 0 n o
      → n ≤ n_vocab
      → other < n_vocab
      → elim o as (λ x. ℕ) [ none ↦ other | some i ↦ i ] < n_vocab
  found-lt n n_vocab other none h few fits = fits
  found-lt n n_vocab other (some i) h few fits = omega arith

  pub sample_from-lt :
      (n_vocab : ℕ) (p : List F) (rng : ℕ)
      → length p ≡ n_vocab
      → 0 < n_vocab
      → (sample_from fl n_vocab p rng).0 < n_vocab
  unfolding sample_from
  sample_from-lt n_vocab p rng same pos =
      found-lt (length p) n_vocab (n_vocab - 1) _ (draw_from-IsIndex _ nought 0 p) (omega arith)
        (omega arith)

  pub sample_residual-lt :
      (n_vocab : ℕ) (draft target : List F) (rng : ℕ)
      → length target ≡ n_vocab
      → 0 < n_vocab
      → (sample_residual fl n_vocab draft target rng).0 < n_vocab
  unfolding sample_residual
  sample_residual-lt n_vocab draft target rng same pos =
      elim (Bool-cases (lt_d nought_d (residual_from fl nought_d ds))) [
        | inl above ↦ rw above (
            found-lt (length ds) n_vocab 0 _ (draw_residual-IsIndex _ nought_d 0 ds)
              (omega (arith, length-differences draft target)) pos)
        | inr none_above ↦
            rw none_above (elim (Bool-cases (lt_d nought_d (total_from fl nought_d target))) [
              | inl some_mass ↦ rw some_mass (
                  found-lt (length target) n_vocab (n_vocab - 1) _
                    (draw_target-IsIndex _ nought_d 0 target) (omega arith) (omega arith))
              | inr empty ↦ rw empty pos
            ])
      ]
    where
      ds : List F
      ds = differences fl draft target
