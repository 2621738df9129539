-- ===== src/Tokenizer/ByteMap/RoundTrip.antt =====
-- Every byte comes back through the byte map, alone and in a text.
use etha_jhol.Common.{
  ℕ, zero, suc, ◌≤◌, ◌<◌, ◌≡◌, refl, Bool, true, false, ◌&&◌, List, [], ◌∷◌, ◌++◌, arith, ◌==◌,
  ==_iff, list_eq, list_eq→eq, length, length-append, drop-append, get_or, map, ap, concat, All,
}
use etha_jhol.Common.Numbers.{passes, passes-below}
use etha_jhol.Tokenizer.ByteMap.{
  encode_byte_fwd, read_code_point, emit_code_point, decode_loop, decode_gpt2,
}

-- One round at the encoding `e` of the byte `b`, whatever text stands behind it.
returns : ℕ → List ℕ → List ℕ → Bool
returns b [] rest = false
returns b (x ∷ xs) rest =
    let s = xs ++ rest in
    let r = read_code_point x (get_or s 0 0) (get_or s 1 0) (get_or s 2 0) in
    (r.seq == length (x ∷ xs)) && list_eq (emit_code_point r (x ∷ s)) (b ∷ [])

returns_table : (rest : List ℕ) → passes 0 256 (λ b. returns b (encode_byte_fwd b) rest) ≡ true
unfolding passes returns encode_byte_fwd read_code_point emit_code_point
returns_table rest = refl

and_true : (a b : Bool) → (a && b) ≡ true → (a ≡ true) × (b ≡ true)
and_true a b h = ground arith

decode_loop-returns :
    (fuel b : ℕ) (e rest : List ℕ)
    → returns b e rest ≡ true
    → decode_loop (suc fuel) (e ++ rest) ≡ b ∷ decode_loop fuel rest
unfolding decode_loop returns
decode_loop-returns fuel b [] rest h = cc
decode_loop-returns fuel b (x ∷ xs) rest h =
    let s = xs ++ rest in
    let r = read_code_point x (get_or s 0 0) (get_or s 1 0) (get_or s 2 0) in
    let (taken, emitted) = and_true (r.seq == length (x ∷ xs)) _ h in
    rw (
      list_eq→eq (emit_code_point r (x ∷ s)) (b ∷ []) emitted,
      (==_iff r.seq (length (x ∷ xs))).0 taken,
      drop-append xs rest,
    )

-- One round of the decoding loop at the encoding of a byte gives that byte back.
pub decode_loop-encode_byte_fwd :
    (fuel b : ℕ) (rest : List ℕ)
    → b < 256
    → decode_loop (suc fuel) (encode_byte_fwd b ++ rest) ≡ b ∷ decode_loop fuel rest
decode_loop-encode_byte_fwd fuel b rest h =
    decode_loop-returns fuel b (encode_byte_fwd b) rest (passes-below 256 _ (returns_table rest) h)

decode_loop-map :
    (fuel : ℕ) (bs : List ℕ)
    → All (λ b. b < 256) bs
    → length bs ≤ fuel
    → decode_loop fuel (concat (map encode_byte_fwd bs)) ≡ bs
unfolding decode_loop
decode_loop-map zero [] h n = refl
decode_loop-map (suc fuel) [] h n = refl
decode_loop-map zero (b ∷ bs) h n = absurd (omega arith)
decode_loop-map (suc fuel) (b ∷ bs) h n =
    rw (decode_loop-encode_byte_fwd fuel b (concat (map encode_byte_fwd bs)) h.0)
      (ap (◌∷◌ b) (decode_loop-map fuel bs h.1 (omega arith)))

encode_byte_fwd-length : (b : ℕ) → 0 < length (encode_byte_fwd b)
unfolding encode_byte_fwd
encode_byte_fwd-length b = ground arith

length-concat-map : (bs : List ℕ) → length bs ≤ length (concat (map encode_byte_fwd bs))
length-concat-map [] = omega arith
length-concat-map (b ∷ bs) =
    rw (length-append (encode_byte_fwd b) (concat (map encode_byte_fwd bs)))
      (omega (arith, encode_byte_fwd-length b, length-concat-map bs))

-- Decoding the forward-mapped bytes of a text gives the text back, for every list of bytes.
pub decode_gpt2-encode_byte_fwd :
    (bs : List ℕ) → All (λ b. b < 256) bs → decode_gpt2 (concat (map encode_byte_fwd bs)) ≡ bs
unfolding decode_gpt2
decode_gpt2-encode_byte_fwd bs h = decode_loop-map _ bs h (length-concat-map bs)
