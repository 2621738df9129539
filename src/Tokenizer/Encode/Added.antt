-- ===== src/Tokenizer/Encode/Added.antt =====
-- The longest added token at a place of the text.
use etha_jhol.Common.{
  ℕ, suc, ◌<◌, ◌≤◌, ◌≡◌, ◌⊎◌, inl, inr, refl, sym, ap, subst, arith, true, ◌&&◌, some, List, [],
  ◌∷◌, ltb, ltb→lt, ltb→ge, length, get_elem?, Bool-cases, All,
}
use etha_jhol.Tokenizer.Encode.{starts_with, match_added}

-- The text begins with an added token of the length and the id of the match.
abbrev pub IsAdded : List (List ℕ × ℕ) → List ℕ → ℕ × ℕ → Type 0
IsAdded added p (len, id) =
    (i : ℕ) × (s : List ℕ) × (get_elem? added i ≡ some (s, id))
    × (length s ≡ len)
    × (starts_with p s ≡ true)

-- No token in the list that the text begins with is longer.
abbrev pub NoLonger : List (List ℕ × ℕ) → List ℕ → ℕ → Type 0
NoLonger added p len = All (λ (a : List ℕ × ℕ). starts_with p a.0 ≡ true → length a.0 ≤ len) added

-- The best of a match `best` and the tokens of the list.
abbrev pub IsBest : List (List ℕ × ℕ) → List ℕ → ℕ × ℕ → ℕ × ℕ → Type 0
IsBest added p best hit =
    (best.0 ≤ hit.0) × NoLonger added p hit.0 × ((hit ≡ best) ⊎ IsAdded added p hit)

behind :
    (added : List (List ℕ × ℕ)) (p : List ℕ) (a : List ℕ × ℕ) (hit : ℕ × ℕ)
    → IsAdded added p hit
    → IsAdded (a ∷ added) p hit
behind added p a hit (i, t, at, size, here) = (suc i, t, at, size, here)

match_added-IsBest :
    (added : List (List ℕ × ℕ)) (p : List ℕ) (best : ℕ × ℕ)
    → IsBest added p best (match_added added p best)
unfolding match_added
match_added-IsBest [] p best = (omega arith, tt, inl refl)
match_added-IsBest ((s, id) ∷ added) p best =
    let all = (s, id) ∷ added in
    elim (Bool-cases (ltb best.0 (length s) && starts_with p s)) [
      | inl better ↦
          let (more, others, source) = match_added-IsBest added p (length s, id) in
          let longer : best.0 < length s = ltb→lt best.0 (length s) (ground (arith, better)) in
          let begins : starts_with p s ≡ true = ground (arith, better) in
          let step : match_added all p best ≡ match_added added p (length s, id) =
            rw (match_added, better) refl in
          subst (IsBest all p best) (sym step) (
            omega (arith, more, longer),
            ((λ h. more), others),
            inr (elim source [
              | inl same ↦ (
                0,
                s,
                ap (λ (r : ℕ × ℕ). some (s, r.1)) (sym same),
                ap (λ (r : ℕ × ℕ). r.0) (sym same),
                begins,
              )
              | inr here ↦ behind added p (s, id) (match_added added p (length s, id)) here
            ]),
          )
      | inr worse ↦
          let (more, others, source) = match_added-IsBest added p best in
          let step : match_added all p best ≡ match_added added p best =
            rw (match_added, worse) refl in
          let shorter : starts_with p s ≡ true → length s ≤ (match_added added p best).0 = λ begins.
            let small = ltb→ge best.0 (length s) (ground (arith, worse, begins)) in
            omega (arith, small, more) in
          subst (IsBest all p best) (sym step) (
            more,
            (shorter, others),
            elim source [
              | inl same ↦ inl same
              | inr here ↦ inr (behind added p (s, id) (match_added added p best) here)
            ],
          )
    ]

-- Whatever the order of the added tokens, the match is none of length 0, or an added token that the
-- text begins with, and no added token that the text begins with is longer.
pub match_added-longest :
    (added : List (List ℕ × ℕ)) (p : List ℕ)
    → NoLonger added p (match_added added p (0, 0)).0
      × ((match_added added p (0, 0) ≡ (0, 0)) ⊎ IsAdded added p (match_added added p (0, 0)))
match_added-longest added p =
    let (more, longest, source) = match_added-IsBest added p (0, 0) in (longest, source)
