-- ===== src/Tokenizer/Bpe/Words.antt =====
-- The pieces of a word under `bpe_word_push`, and of the word that a merge builds.
use etha_jhol.Common.{
  ℕ, zero, suc, ◌+◌, ◌≤◌, ◌<◌, ◌≡◌, refl, sym, ap, ap₂, ◌∙◌, arith, true, false, Option, some, List,
  [], ◌∷◌, ◌++◌, map, map-append, concat-append, leb, ◌==◌, ==_refl, length, take, concat, All,
  append-nil, append_assoc, length-append, drop-append,
}
use etha_jhol.Tokenizer.Bpe.{Word, new_word, push, piece_at, pieces, pushed, push_round, rebuild}

-- The pieces lie inside the bytes, and are the bytes one behind the other.
pub record IsWord (w : Word) : Type 0 where
  pub inside : All (λ (s : ℕ × ℕ). s.0 + s.1 ≤ length w.bytes) w.spans
  pub whole : concat (pieces w) ≡ w.bytes

take-append : (n : ℕ) (xs ys : List ℕ) → n ≤ length xs → take n (xs ++ ys) ≡ take n xs
take-append zero xs ys h = refl
take-append (suc n) [] ys h = absurd (omega arith)
take-append (suc n) (x ∷ xs) ys h = ap (◌∷◌ x) (take-append n xs ys (omega arith))

piece_at-append :
    (off len : ℕ) (xs ys : List ℕ)
    → off + len ≤ length xs
    → piece_at (xs ++ ys) (off, len) ≡ piece_at xs (off, len)
piece_at-append zero len xs ys h = take-append len xs ys (omega arith)
piece_at-append (suc off) len [] ys h = absurd (omega arith)
piece_at-append (suc off) len (x ∷ xs) ys h = piece_at-append off len xs ys (omega arith)

take-all : (xs : List ℕ) → take (length xs) xs ≡ xs
take-all [] = refl
take-all (x ∷ xs) = ap (◌∷◌ x) (take-all xs)

spans-append :
    (xs ys : List ℕ) (ss : List (ℕ × ℕ))
    → All (λ (s : ℕ × ℕ). s.0 + s.1 ≤ length xs) ss
    → map (piece_at (xs ++ ys)) ss ≡ map (piece_at xs) ss
spans-append xs ys [] h = refl
spans-append xs ys (s ∷ ss) h =
    ap₂ ◌∷◌ (piece_at-append s.0 s.1 xs ys h.0) (spans-append xs ys ss h.1)

pub push-pieces : (w : Word) (p : List ℕ) → IsWord w → pieces (push w p) ≡ pieces w ++ p ∷ []
unfolding pieces push
push-pieces w p h =
    map-append (piece_at (w.bytes ++ p)) w.spans ((length w.bytes, length p) ∷ [])
    ∙ ap₂ ◌++◌ (spans-append w.bytes p w.spans h.inside)
        (ap (λ (x : List ℕ). x ∷ []) (ap (take (length p)) (drop-append w.bytes p) ∙ take-all p))

All-snoc :
    (n m : ℕ) (ss : List (ℕ × ℕ)) (s : ℕ × ℕ)
    → n ≤ m
    → s.0 + s.1 ≤ m
    → All (λ (s : ℕ × ℕ). s.0 + s.1 ≤ n) ss
    → All (λ (s : ℕ × ℕ). s.0 + s.1 ≤ m) (ss ++ s ∷ [])
All-snoc n m [] s le last h = (last, tt)
All-snoc n m (r ∷ ss) s le last h = (omega (arith, h.0, le), All-snoc n m ss s le last h.1)

pub push-IsWord : (w : Word) (p : List ℕ) → IsWord w → IsWord (push w p)
unfolding push
push-IsWord w p h = record {
  inside =
      let size = length-append w.bytes p in
      All-snoc (length w.bytes) (length (w.bytes ++ p)) w.spans (length w.bytes, length p)
        (omega (arith, size)) (omega (arith, size)) h.inside;
  whole =
      ap concat (push-pieces w p h)
      ∙ concat-append (pieces w) (p ∷ [])
      ∙ ap₂ ◌++◌ h.whole (append-nil p);
}

pub new_word-IsWord : IsWord new_word
unfolding pieces
new_word-IsWord = record { inside = tt; whole = refl }

-- The pieces with those at `k` and `k + 1` joined.
unfoldable pub joined : ℕ → List (List ℕ) → List (List ℕ)
joined k [] = []
joined k (a ∷ []) = a ∷ []
joined zero (a ∷ b ∷ rest) = (a ++ b) ∷ rest
joined (suc k) (a ∷ b ∷ rest) = a ∷ joined k (b ∷ rest)

-- A word that is built up to the pieces `ps`.
pub record Builds (ps : List (List ℕ)) (o : Option Word) : Type 0 where
  pub word : Word
  pub built : o ≡ some word
  pub is_word : IsWord word
  pub has : pieces word ≡ ps

push-Builds :
    (w : Word) (a : List ℕ) (rest : List (List ℕ)) {o : Option Word}
    → IsWord w
    → Builds (pieces (push w a) ++ rest) o
    → Builds (pieces w ++ a ∷ rest) o
push-Builds w a rest h b =
    rw
      (ap (λ (x : List (List ℕ)). x ++ rest) (push-pieces w a h)
        ∙ append_assoc (pieces w) (a ∷ []) rest)
      at b

copies :
    (k i : ℕ) (a : List ℕ) (rest : List (List ℕ)) (w : Word)
    → (i == k) ≡ false
    → (i == k + 1) ≡ false
    → push_round k i a rest w ≡ pushed (push w a)
unfolding push_round
copies k i a [] w h h' = rw h' refl
copies k i a (b ∷ rest) w h h' = rw (h, h') refl

skips :
    (k i : ℕ) (a : List ℕ) (rest : List (List ℕ)) (w : Word)
    → i ≡ k + 1
    → push_round k i a rest w ≡ pushed w
unfolding push_round
skips k i a [] w e = let here : (i == k + 1) ≡ true = ground arith in rw here refl
skips k i a (b ∷ rest) w e =
    let here : (i == k + 1) ≡ true = ground arith in
    let past : (i == k) ≡ false = ground arith in rw (past, here) refl

joins :
    (k : ℕ) (a b : List ℕ) (rest : List (List ℕ)) (w : Word)
    → length a + length b ≤ 512
    → push_round k k a (b ∷ rest) w ≡ pushed (push w (a ++ b))
unfolding push_round
joins k a b rest w h =
    let here : (k == k) ≡ true = ==_refl k in
    let fits : leb (length a + length b) 512 ≡ true = ground arith in rw (here, fits) refl

rebuild-step :
    (k i : ℕ) (a : List ℕ) (rest : List (List ℕ)) (w : Word) {w' : Word}
    → push_round k i a rest w ≡ pushed w'
    → rebuild k i (a ∷ rest) w ≡ rebuild k (i + 1) rest w'
unfolding rebuild
rebuild-step k i a rest w h = rw (rebuild, h) refl

rebuild-nil : (k i : ℕ) (w : Word) → IsWord w → Builds (pieces w ++ []) (rebuild k i [] w)
unfolding rebuild
rebuild-nil k i w h = record {
  word = w;
  built = refl;
  is_word = h;
  has = sym (append-nil (pieces w));
}

-- Behind the pair every piece is copied.
rebuild-after :
    (k i : ℕ) (ps : List (List ℕ)) (w : Word)
    → k + 1 < i
    → IsWord w
    → Builds (pieces w ++ ps) (rebuild k i ps w)
rebuild-after k i [] w lt h = rebuild-nil k i w h
rebuild-after k i (a ∷ ps) w lt h =
    let past : (i == k) ≡ false = ground arith in
    let past' : (i == k + 1) ≡ false = ground arith in
    rw (rebuild-step k i a ps w (copies k i a ps w past past')) (
      push-Builds w a ps h
        (rebuild-after k (i + 1) ps (push w a) (omega (arith, lt)) (push-IsWord w a h)))

-- From piece `i` on, the word gets the pieces with the pair `d` places further on joined.
pub rebuild-joined :
    (d i k : ℕ) (ps : List (List ℕ)) (w : Word)
    → k ≡ i + d
    → d + 1 < length ps
    → length (concat ps) ≤ 512
    → IsWord w
    → Builds (pieces w ++ joined d ps) (rebuild k i ps w)
unfolding joined
rebuild-joined d i k [] w e lt small h = absurd (omega arith)
rebuild-joined d i k (a ∷ []) w e lt small h = absurd (omega arith)
rebuild-joined zero i k (a ∷ b ∷ ps) w e lt small h =
    let here : k ≡ i = omega (arith, e) in
    let size : length a + length b ≤ 512 =
      omega (arith, small, length-append a (b ++ concat ps), length-append b (concat ps)) in
    rw
      (
        here,
        rebuild-step i i a (b ∷ ps) w (joins i a b ps w size),
        rebuild-step i (i + 1) b ps (push w (a ++ b)) (skips i (i + 1) b ps (push w (a ++ b)) refl),
      )
      (push-Builds w (a ++ b) ps h
        (rebuild-after i (i + 1 + 1) ps (push w (a ++ b)) (omega arith) (push-IsWord w (a ++ b) h)))
rebuild-joined (suc d) i k (a ∷ b ∷ ps) w e lt small h =
    let before : (i == k) ≡ false = ground arith in
    let before' : (i == k + 1) ≡ false = ground arith in
    rw (rebuild-step k i a (b ∷ ps) w (copies k i a (b ∷ ps) w before before')) (
      push-Builds w a (joined d (b ∷ ps)) h (
        rebuild-joined d (i + 1) k (b ∷ ps) (push w a) (omega (arith, e)) (omega (arith, lt))
          (omega (arith, small, length-append a (concat (b ∷ ps)))) (push-IsWord w a h)))
