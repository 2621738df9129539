-- ===== src/Tokenizer/Bpe/Settles.antt =====
-- The loop of `bpe_word_apply` ends, keeps the bytes, and leaves no pair to merge.
use etha_jhol.Common.{
  ℕ, zero, suc, ◌+◌, ◌≤◌, ◌<◌, ◌≡◌, refl, sym, ap, ◌∙◌, inl, inr, arith, false, Option, none, some,
  List, [], ◌∷◌, ◌++◌, leb, length, concat, append_assoc, Option-cases,
}
use etha_jhol.Tokenizer.Bpe.{
  Word, new_word, pieces, settled, overrun, better_pair, rebuild, best_pair, apply_merges,
  push_round,
}
use etha_jhol.Tokenizer.Bpe.Words.{IsWord, new_word-IsWord, joined, Builds, rebuild-joined}

pub concat-joined : (k : ℕ) (ps : List (List ℕ)) → concat (joined k ps) ≡ concat ps
unfolding joined
concat-joined zero [] = refl
concat-joined (suc k) [] = refl
concat-joined zero (a ∷ []) = refl
concat-joined (suc k) (a ∷ []) = refl
concat-joined zero (a ∷ b ∷ ps) = append_assoc a b (concat ps)
concat-joined (suc k) (a ∷ b ∷ ps) = ap (◌++◌ a) (concat-joined k (b ∷ ps))

pub length-joined :
    (k : ℕ) (ps : List (List ℕ)) → k + 1 < length ps → length (joined k ps) + 1 ≡ length ps
unfolding joined
length-joined k [] h = absurd (omega arith)
length-joined k (a ∷ []) h = absurd (omega arith)
length-joined zero (a ∷ b ∷ ps) h = omega arith
length-joined (suc k) (a ∷ b ∷ ps) h = omega (arith, length-joined k (b ∷ ps) (omega (arith, h)))

better_pair-none :
    (o : Option ℕ) (i : ℕ) (best : Option (ℕ × ℕ))
    → better_pair o i best ≡ none
    → (o ≡ none) × (best ≡ none)
unfolding better_pair
better_pair-none none i best h = (refl, h)
better_pair-none (some r) i none h = cc
better_pair-none (some r) i (some (r', j)) h = absurd (ground arith)

better_pair-bound :
    (o : Option ℕ) (i n : ℕ) (best : Option (ℕ × ℕ))
    → i + 1 < n
    → ((r j : ℕ) → best ≡ some (r, j) → j + 1 < n)
    → (r j : ℕ) → better_pair o i best ≡ some (r, j)
    → j + 1 < n
unfolding better_pair
better_pair-bound none i n best lt h r j e = h r j e
better_pair-bound (some r') i n none lt h r j e = ground arith
better_pair-bound (some r') i n (some (r'', j')) lt h r j e = ground (arith, h r'' j' refl)

too_long_pair :
    (a b : List ℕ) (w : Word) → 512 < length a + length b → rebuild 0 0 (a ∷ b ∷ []) w ≡ none
unfolding rebuild push_round
too_long_pair a b w long =
    let over : leb (length a + length b) 512 ≡ false = ground arith in
    rw (rebuild, push_round, over) refl

module _ (rank : List ℕ → List ℕ → Option ℕ) where
  -- No two adjacent pieces have a rule.
  pub NoPair : List (List ℕ) → Type 0
  NoPair [] = Unit
  NoPair (a ∷ []) = Unit
  NoPair (a ∷ b ∷ ps) = (rank a b ≡ none) × NoPair (b ∷ ps)

  best_pair-NoPair :
      (i : ℕ) (ps : List (List ℕ)) (best : Option (ℕ × ℕ))
      → best_pair rank i ps best ≡ none
      → (best ≡ none) × NoPair ps
  unfolding best_pair NoPair
  best_pair-NoPair i [] best h = (h, tt)
  best_pair-NoPair i (a ∷ []) best h = (h, tt)
  best_pair-NoPair i (a ∷ b ∷ ps) best h =
      let (better, rest) = best_pair-NoPair (i + 1) (b ∷ ps) (better_pair (rank a b) i best) h in
      let (r, n) = better_pair-none (rank a b) i best better in (n, (r, rest))

  best_pair-bound :
      (i n : ℕ) (ps : List (List ℕ)) (best : Option (ℕ × ℕ)) {r j : ℕ}
      → i + length ps ≤ n
      → ((r j : ℕ) → best ≡ some (r, j) → j + 1 < n)
      → best_pair rank i ps best ≡ some (r, j)
      → j + 1 < n
  unfolding best_pair
  best_pair-bound i n [] best {r} {j} le h e = h r j e
  best_pair-bound i n (a ∷ []) best {r} {j} le h e = h r j e
  best_pair-bound i n (a ∷ b ∷ ps) best {r} {j} le h e =
      best_pair-bound (i + 1) n (b ∷ ps) (better_pair (rank a b) i best) {r = r} {j = j}
        (omega (arith, le))
        (λ r' j' e'. better_pair-bound (rank a b) i n best (omega (arith, le)) h r' j' e') e

  pub stop_round :
      (fuel : ℕ) (w : Word)
      → best_pair rank 0 (pieces w) none ≡ none
      → apply_merges rank (suc fuel) w ≡ settled w
  unfolding apply_merges
  stop_round fuel w e = rw (apply_merges, e) refl

  pub merge_round :
      (fuel : ℕ) (w w' : Word) {r k : ℕ}
      → best_pair rank 0 (pieces w) none ≡ some (r, k)
      → rebuild k 0 (pieces w) new_word ≡ some w'
      → apply_merges rank (suc fuel) w ≡ apply_merges rank fuel w'
  unfolding apply_merges
  merge_round fuel w w' e b = rw (apply_merges, e, b) refl

  -- One round builds the word with the two pieces joined.
  pub round-Builds :
      (w : Word) {r k : ℕ}
      → IsWord w
      → length w.bytes ≤ 512
      → best_pair rank 0 (pieces w) none ≡ some (r, k)
      → Builds (joined k (pieces w)) (rebuild k 0 (pieces w) new_word) × (k + 1 < length (pieces w))
  unfolding pieces
  round-Builds w {r} {k} h small e =
      let bound =
        best_pair-bound 0 (length (pieces w)) (pieces w) none {r = r} {j = k} (omega arith)
          (λ r' j' q. cc q) e in
      let size : length (concat (pieces w)) ≤ 512 = omega (arith, ap length h.whole, small) in
      (rebuild-joined k 0 k (pieces w) new_word (omega arith) bound size new_word-IsWord, bound)

  -- A word of at most 512 bytes, with more rounds allowed than it has pieces: the loop settles, the
  -- bytes are the same, the pieces are again those bytes one behind the other, and no two adjacent
  -- pieces have a merge rule.
  pub apply_merges-NoPair :
      (fuel : ℕ) (w : Word)
      → IsWord w
      → length (pieces w) < fuel
      → length w.bytes ≤ 512
      → (w' : Word) × (apply_merges rank fuel w ≡ settled w')
        × (w'.bytes ≡ w.bytes)
        × (concat (pieces w') ≡ w.bytes)
        × NoPair (pieces w')
  apply_merges-NoPair zero w h lt small = absurd (omega arith)
  apply_merges-NoPair (suc fuel) w h lt small =
      elim (Option-cases (best_pair rank 0 (pieces w) none)) [
        | inl e ↦ (w, stop_round fuel w e, refl, h.whole, (best_pair-NoPair 0 (pieces w) none e).1)
        | inr ((r, k), e) ↦
            let (b, bound) = round-Builds w h small e in
            let fewer : length (pieces b.word) + 1 ≡ length (pieces w) =
              ap (λ (ps : List (List ℕ)). length ps + 1) b.has ∙ length-joined k (pieces w) bound in
            let bytes : b.word.bytes ≡ w.bytes =
              sym b.is_word.whole ∙ ap concat b.has ∙ concat-joined k (pieces w) ∙ h.whole in
            let (w', run, same, whole, none_left) =
              apply_merges-NoPair fuel b.word b.is_word (omega (arith, fewer, lt))
                (omega (arith, ap length bytes, small)) in
            (w', merge_round fuel w b.word e b.built ∙ run, same ∙ bytes, whole ∙ bytes, none_left)
      ]

  overrun_round :
      (fuel : ℕ) (w : Word) {r k : ℕ}
      → best_pair rank 0 (pieces w) none ≡ some (r, k)
      → rebuild k 0 (pieces w) new_word ≡ none
      → apply_merges rank (suc fuel) w ≡ overrun
  unfolding apply_merges
  overrun_round fuel w e b = rw (apply_merges, e, b) refl

  only_pair :
      (a b : List ℕ) {r : ℕ} → rank a b ≡ some r → best_pair rank 0 (a ∷ b ∷ []) none ≡ some (r, 0)
  unfolding best_pair better_pair
  only_pair a b rule = rw (best_pair, better_pair, rule) refl
