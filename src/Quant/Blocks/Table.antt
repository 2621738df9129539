-- ===== src/Quant/Blocks/Table.antt =====
-- The choice of a decoder, `vg_dequantize_block`, `vg_dequantize_row` and `vg_quantized_dot`.
use etha_jhol.Common.{
  ℕ, ◌+◌, ◌-◌, ◌*◌, ◌/◌, ◌^◌, not, Option, none, some, List, [], ◌∷◌, length, get_or, ltb, ◌==◌,
  if◌then◌else◌,
}
use etha_jhol.Common.Result.{Result, fail, ok, invalid, format, unsupported, ◌>>=◌}
use etha_jhol.Quant.{quant_info, quant_validate}
use etha_jhol.Quant.Blocks.{
  Block, Scalars, half_at, u16_at, u32_at, tabulate, flat, deq_q2_k, deq_q3_k, deq_q4_k, deq_q5_k,
  deq_q6_k, deq_q8_k, deq_q4_0, deq_q4_1, deq_q5_0, deq_q5_1, deq_q8_0, deq_iq4_nl, deq_tq1_0,
  deq_tq2_0, deq_q1_0, deq_q2_0,
}

-- The bytes of an array from an offset on.
abbrev pub bytes_from : List ℕ → ℕ → Block
bytes_from bytes start i = get_or bytes (start + i) 0

abbrev pub u64_at : Block → ℕ → ℕ
u64_at at i = u32_at at i + u32_at at (i + 4) * 2 ^ 32

-- A decoder of blocks: the type, the bytes from one block to the next, and the values of a block.
pub record Decoder (F : Type 0) : Type 0 where
  pub kind : ℕ
  pub stride : ℕ
  pub decode : Block → List F

abbrev decoder : {F : Type 0} → ℕ → ℕ → (Block → List F) → Decoder F
decoder n s d = record { kind = n; stride = s; decode = d }

module _ {F : Type 0} (fl : Scalars F) where
  open fl use {of_bits, of_bits64, diff}

  -- The cases of `block_fn`, each with the stride of its decoder's loop.
  unfoldable pub decoders : List (Decoder F)
  decoders =
      decoder 2 18 (deq_q4_0 fl)
      ∷ decoder 3 20 (deq_q4_1 fl)
      ∷ decoder 6 22 (deq_q5_0 fl)
      ∷ decoder 7 24 (deq_q5_1 fl)
      ∷ decoder 8 34 (deq_q8_0 fl)
      ∷ decoder 20 18 (deq_iq4_nl fl)
      ∷ decoder 10 84 (deq_q2_k fl)
      ∷ decoder 11 110 (deq_q3_k fl)
      ∷ decoder 12 144 (deq_q4_k fl)
      ∷ decoder 13 176 (deq_q5_k fl)
      ∷ decoder 14 210 (deq_q6_k fl)
      ∷ decoder 15 292 (deq_q8_k fl)
      ∷ decoder 34 54 (deq_tq1_0 fl)
      ∷ decoder 35 66 (deq_tq2_0 fl)
      ∷ decoder 41 18 (deq_q1_0 fl)
      ∷ decoder 42 18 (deq_q2_0 fl)
      ∷ []

  unfoldable pub decoder_in : ℕ → List (Decoder F) → Option (Decoder F)
  decoder_in type [] = none
  decoder_in type (e ∷ es) = if e.kind == type then some e else decoder_in type es

  -- `block_fn`
  unfoldable pub block_fn : ℕ → Option (Decoder F)
  unfolding decoders decoder_in
  block_fn type = decoder_in type decoders

  -- `(float)` of a two's complement number of `w` bits.
  abbrev signed_of : ℕ → ℕ → F
  signed_of w n = if ltb n (2 ^ (w - 1)) then diff n 0 else diff n (2 ^ w)

  -- The types whose blocks are single numbers.
  unfoldable pub number_fn : ℕ → Option (ℕ × (Block → F))
  number_fn type =
      if type == 0
      then some (4, λ at. of_bits (u32_at at 0))
      else if type == 1
      then some (2, λ at. half_at fl at 0)
      else if type == 30
      then some (2, λ at. of_bits (u16_at at 0 * 2 ^ 16))
      else if type == 4
      then some (8, λ at. of_bits64 (u64_at at 0))
      else if type == 24
      then some (1, λ at. signed_of 8 (at 0))
      else if type == 25
      then some (2, λ at. signed_of 16 (u16_at at 0))
      else if type == 26
      then some (4, λ at. signed_of 32 (u32_at at 0))
      else if type == 27
      then some (8, λ at. signed_of 64 (u64_at at 0))
      else none

  -- `vg_dequantize_block`
  unfoldable pub dequantize_block : ℕ → Block → Result (List F)
  unfolding block_fn number_fn
  dequantize_block type at = elim (quant_info type) [
    | none ↦ fail unsupported
    | some q ↦ if not q.supported_scalar then fail unsupported else (elim (number_fn type) [
      | some (width, number) ↦ ok (number at ∷ [])
      | none ↦ (elim (block_fn type) [ none ↦ fail unsupported | some e ↦ ok (e.decode at) ])
    ])
  ]

  -- The loop over the blocks of an array.
  unfoldable pub decode_blocks : Decoder F → ℕ → List ℕ → List F
  decode_blocks e n packed = flat n (λ b. e.decode (bytes_from packed (b * e.stride)))

  -- `vg_dequantize_row`, with the bytes of the row.
  unfoldable pub dequantize_row : ℕ → List ℕ → ℕ → Result (List F)
  unfolding block_fn number_fn decode_blocks
  dequantize_row type packed elements =
      if elements == 0
      then fail invalid
      else if not (quant_validate type elements (length packed))
      then fail format
      else (elim (quant_info type) [
        | none ↦ fail unsupported
        | some q ↦ if not q.supported_scalar then fail unsupported else (elim (number_fn type) [
          | some (width, number) ↦
              ok (tabulate elements (λ i. number (bytes_from packed (i * width))))
          | none ↦ (elim (block_fn type) [
            | none ↦ fail unsupported
            | some e ↦ ok (decode_blocks e (elements / q.block_size) packed)
          ])
        ])
      ])

  -- The sum that `vg_quantized_dot` runs over the values and the entries of `x`.
  unfoldable pub dot_from : F → List F → List F → F
  dot_from acc [] x = acc
  dot_from acc (y ∷ ys) [] = acc
  dot_from acc (y ∷ ys) (x ∷ xs) = dot_from (fl.add acc (fl.mul y x)) ys xs

  -- `vg_quantized_dot`
  unfoldable pub quantized_dot : ℕ → List ℕ → List F → ℕ → Result F
  unfolding dequantize_row dot_from
  quantized_dot type packed x elements =
      dequantize_row type packed elements >>= λ ys. ok (dot_from (diff 0 0) ys x)
