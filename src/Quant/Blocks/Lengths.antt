-- ===== src/Quant/Blocks/Lengths.antt =====
-- A row of a supported type that validates is decoded into as many values as it has elements.
use etha_jhol.Common.{
  ℕ, zero, suc, ◌*◌, ◌/◌, ◌%◌, ◌<◌, ◌≡◌, ◌⊎◌, inl, inr, refl, sym, ap, ◌∙◌, subst, arith, true,
  false, none, some, List, [], ◌∷◌, concat, length, length-append, ◌==◌, ==_iff, All, Bool-cases,
}
use etha_jhol.Common.Result.{ok}
use etha_jhol.Quant.{Info, infos, find_in, quant_info, quant_validate, validate_info}
use etha_jhol.Quant.Validate.{quant_info-IsRow}
use etha_jhol.Quant.Blocks.{
  Block, Scalars, tabulate, tabulate_from, deq_q2_k, deq_q3_k, deq_q4_k, deq_q5_k, deq_q6_k,
  deq_q8_k, deq_q4_0, deq_q4_1, deq_q5_0, deq_q5_1, deq_q8_0, deq_iq4_nl, deq_tq1_0, deq_tq2_0,
  deq_q1_0, deq_q2_0,
}
use etha_jhol.Quant.Blocks.Table.{
  Decoder, number_fn, block_fn, decode_blocks, dequantize_row, bytes_from,
}

length-tabulate_from {ℓ} : {A : Type ℓ} (i n : ℕ) (f : ℕ → A) → length (tabulate_from i n f) ≡ n
unfolding tabulate_from
length-tabulate_from i zero f = refl
length-tabulate_from i (suc n) f = ap suc (length-tabulate_from (suc i) n f)

length-concat-tabulate_from {ℓ} :
    {A : Type ℓ} (i n k : ℕ) (f : ℕ → List A)
    → ((j : ℕ) → length (f j) ≡ k)
    → length (concat (tabulate_from i n f)) ≡ n * k
unfolding tabulate_from
length-concat-tabulate_from i zero k f h = omega arith
length-concat-tabulate_from i (suc n) k f h =
    length-append (f i) _ ∙ grind (arith, h i, length-concat-tabulate_from (suc i) n k f h)

-- A pair, written flat where a list of pairs is long.
infixr 20 ◌&◌
◌&◌ {ℓ κ} : {A : Type ℓ} {B : Type κ} → A → B → A × B
a & b = (a, b)

module _ {F : Type 0} (fl : Scalars F) where
  -- What a supported entry of the table of types has: a number's bytes, or a decoder of whole blocks.
  abbrev HasNumber : Info → Type 0
  HasNumber q =
      (w : ℕ) × (number : Block → F) × (number_fn fl q.kind ≡ some (w, number))
      × (w ≡ q.bytes_per_block)
      × (q.block_size ≡ 1)

  abbrev HasDecoder : Info → Type 0
  HasDecoder q =
      (e : Decoder F) × (number_fn fl q.kind ≡ none)
      × (block_fn fl q.kind ≡ some e)
      × (e.stride ≡ q.bytes_per_block)
      × ((at : Block) → length (e.decode at) ≡ q.block_size)

  abbrev IsDecodable : Info → Type 0
  IsDecodable q = (q.supported_scalar ≡ false) ⊎ (HasNumber q ⊎ HasDecoder q)

  -- Every entry of the table that says so is decodable.
  infos-IsDecodable : All IsDecodable infos
  unfolding infos number_fn block_fn tabulate_from deq_q2_k deq_q3_k deq_q4_k deq_q5_k deq_q6_k
      deq_q8_k deq_q4_0 deq_q4_1 deq_q5_0 deq_q5_1 deq_q8_0 deq_iq4_nl deq_tq1_0 deq_tq2_0 deq_q1_0
      deq_q2_0
  infos-IsDecodable =
      inr (inl (_, _, refl, refl, refl))
      & inr (inl (_, _, refl, refl, refl))
      & inr (inl (_, _, refl, refl, refl))
      & inr (inl (_, _, refl, refl, refl))
      & inr (inr (_, refl, refl, refl, λ at. refl))
      & inr (inr (_, refl, refl, refl, λ at. refl))
      & inr (inr (_, refl, refl, refl, λ at. refl))
      & inr (inr (_, refl, refl, refl, λ at. refl))
      & inr (inr (_, refl, refl, refl, λ at. refl))
      & inr (inr (_, refl, refl, refl, λ at. refl))
      & inr (inr (_, refl, refl, refl, λ at. refl))
      & inr (inr (_, refl, refl, refl, λ at. refl))
      & inr (inr (_, refl, refl, refl, λ at. refl))
      & inr (inr (_, refl, refl, refl, λ at. refl))
      & inr (inr (_, refl, refl, refl, λ at. refl))
      & inr (inr (_, refl, refl, refl, λ at. refl))
      & inr (inl (_, _, refl, refl, refl))
      & inr (inl (_, _, refl, refl, refl))
      & inr (inl (_, _, refl, refl, refl))
      & inr (inl (_, _, refl, refl, refl))
      & inl refl
      & inl refl
      & inl refl
      & inl refl
      & inl refl
      & inl refl
      & inl refl
      & inl refl
      & inl refl
      & inl refl
      & inl refl
      & inr (inr (_, refl, refl, refl, λ at. refl))
      & inr (inr (_, refl, refl, refl, λ at. refl))
      & inr (inr (_, refl, refl, refl, λ at. refl))
      & inr (inr (_, refl, refl, refl, λ at. refl))
      & tt

  find_in-All :
      (P : Info → Type 0) (type : ℕ) (is : List Info) (q : Info)
      → All P is
      → find_in type is ≡ some q
      → P q × (q.kind ≡ type)
  unfolding find_in
  find_in-All P type [] q h found = cc
  find_in-All P type (i ∷ is) q (h, hs) found = elim (Bool-cases (i.kind == type)) [
    | inl hit ↦
        let same : i ≡ q = cc (rw hit at found) in
        (subst P same h, ap (λ r. r.kind) (sym same) ∙ (==_iff _ _).0 hit)
    | inr miss ↦ find_in-All P type is q hs (rw miss at found)
  ]

  quant_info-IsDecodable :
      (type : ℕ) (q : Info) → quant_info type ≡ some q → IsDecodable q × (q.kind ≡ type)
  unfolding quant_info
  quant_info-IsDecodable type q found = find_in-All IsDecodable type infos q infos-IsDecodable found

  validate_info-parts :
      (q : Info) (elements bytes : ℕ)
      → 0 < q.block_size
      → validate_info q elements bytes ≡ true
      → ((elements == 0) ≡ false) × (elements / q.block_size * q.block_size ≡ elements)
  unfolding validate_info
  validate_info-parts q elements bytes pos h =
      let whole : elements % q.block_size ≡ 0 = ground arith in (ground arith, grind arith)

  row_validates :
      (type elements bytes : ℕ) (q : Info)
      → quant_info type ≡ some q
      → quant_validate type elements bytes ≡ true
      → validate_info q elements bytes ≡ true
  unfolding quant_validate
  row_validates type elements bytes q found valid = rw (found, quant_validate) at valid

  length-decode_blocks :
      (e : Decoder F) (size n : ℕ) (packed : List ℕ)
      → ((at : Block) → length (e.decode at) ≡ size)
      → length (decode_blocks fl e n packed) ≡ n * size
  unfolding decode_blocks
  length-decode_blocks e size n packed h = length-concat-tabulate_from 0 n size _ (λ b. h _)

  -- A row that validates, of a type that the table lists as supported, is decoded, and into exactly as
  -- many values as it has elements.
  pub dequantize_row-length :
      (type elements : ℕ) (packed : List ℕ) (q : Info)
      → quant_info type ≡ some q
      → q.supported_scalar ≡ true
      → quant_validate type elements (length packed) ≡ true
      → (ys : List F) × (dequantize_row fl type packed elements ≡ ok ys) × (length ys ≡ elements)
  unfolding dequantize_row
  dequantize_row-length type elements packed q found supported valid =
      let known = quant_info-IsDecodable type q found in
      let (some_elements, whole) =
        validate_info-parts q elements (length packed) (quant_info-IsRow type q found).0.block_pos
          (row_validates type elements (length packed) q found valid) in
      elim known.0 [
        | inl unsupported ↦ cc
        | inr (inl (w, number, is_number, strides, one)) ↦ (
          tabulate elements (λ i. number (bytes_from packed (i * w))),
          rw (some_elements, dequantize_row)
              (rw valid (
                rw found (
                  rw supported
                    (rw (subst (λ k. number_fn fl k ≡ some (w, number)) known.1 is_number) refl)))),
          length-tabulate_from 0 elements _,
        )
        | inr (inr (e, no_number, is_block, strides, lengths)) ↦ (
          decode_blocks fl e (elements / q.block_size) packed,
          rw (some_elements, dequantize_row)
              (rw valid (
                rw found (
                  rw supported (
                    rw (subst (λ k. number_fn fl k ≡ none) known.1 no_number)
                      (rw (subst (λ k. block_fn fl k ≡ some e) known.1 is_block) refl))))),
          length-decode_blocks e q.block_size (elements / q.block_size) packed lengths ∙ whole,
        )
      ]
