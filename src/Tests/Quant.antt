-- ===== src/Tests/Quant.antt =====
-- The decoders at small blocks. The values are numbers, and a difference is one that stops at 0.
use etha_jhol.Common.{
  ℕ, ◌+◌, ◌-◌, ◌*◌, ◌≡◌, refl, arith, true, some, List, length, replicate, ltb, ◌==◌, if◌then◌else◌,
}
use etha_jhol.Common.Result.{ok}
use etha_jhol.Quant.{Info, quant_info, quant_validate}
use etha_jhol.Quant.Blocks.{Block, Scalars, tabulate, deq_q4_k, deq_q5_0, deq_tq1_0}
use etha_jhol.Quant.Blocks.HighBits.{deq_q5_0-loses}
use etha_jhol.Quant.Blocks.Lengths.{dequantize_row-length}
use etha_jhol.Quant.Blocks.SuperBlock.{Holds, value, deq_q4_k-values}
use etha_jhol.Quant.Blocks.Table.{dequantize_row}
use etha_jhol.Quant.Blocks.Ternary.{HoldsDigits, packed, digit_value, deq_tq1_0-values}
use etha_jhol.Quant.Half.{half_bits, IsExact, half_bits-IsExact}

abbrev scalars : Scalars ℕ
scalars = record {
  of_bits = λ n. n;
  of_bits64 = λ n. n;
  diff = λ a b. a - b;
  add = λ a b. a + b;
  sub = λ a b. a - b;
  mul = λ a b. a * b;
  neg = λ a. a;
}

-- 1.0
half_bits-IsExact_example : IsExact 0x3c00 (half_bits 0x3c00)
half_bits-IsExact_example = half_bits-IsExact 0x3c00 (omega arith)

half_run : half_bits 0x3c00 ≡ 0x3f800000
unfolding half_bits
half_run = refl

-- The least subnormal.
half_subnormal_run : half_bits 1 ≡ 0x33800000
unfolding half_bits
half_subnormal_run = refl

abbrev a_row : List ℕ
a_row = replicate 36 7

abbrev q4_0_info : Info
q4_0_info = record {
  kind = 2;
  name = "Q4_0";
  block_size = 32;
  bytes_per_block = 18;
  alignment = 32;
  supported_scalar = true;
  supported_vulkan = true;
}

q4_0_found : quant_info 2 ≡ some q4_0_info
unfolding quant_info
q4_0_found = refl

q4_0_valid : quant_validate 2 64 (length a_row) ≡ true
unfolding quant_validate quant_info
q4_0_valid = refl

dequantize_row-length_example :
    (ys : List ℕ) × (dequantize_row scalars 2 a_row 64 ≡ ok ys) × (length ys ≡ 64)
dequantize_row-length_example =
    dequantize_row-length scalars 2 64 a_row q4_0_info q4_0_found refl q4_0_valid

-- Scales 17, minimums 33, codes 5.
abbrev super_block : Block
super_block i = if ltb i 8 then 81 else if ltb i 12 then 161 else if ltb i 16 then 17 else 85

super_block-Holds : Holds super_block (λ j. 17) (λ j. 33) (λ i. 5)
super_block-Holds = record {
  scales_small = λ j h. omega arith;
  mins_small = λ j h. omega arith;
  codes_small = λ i h. omega arith;
  scales = λ j h. ground arith;
  mins = λ j h. ground arith;
  both = λ j h. ground arith;
  codes = λ j l h k. ground arith;
}

deq_q4_k-values_example :
    deq_q4_k scalars super_block
    ≡ tabulate 256 (value scalars super_block (λ j. 17) (λ j. 33) (λ i. 5))
deq_q4_k-values_example = deq_q4_k-values scalars super_block-Holds

-- All digits 2.
abbrev digit_block : Block
digit_block i = if ltb i 48 then 255 else 253

digit_block-HoldsDigits : HoldsDigits digit_block (λ i. 2)
unfolding packed
digit_block-HoldsDigits = record {
  small = λ i h. omega arith;
  first = λ i h. ground arith;
  second = λ i h. ground arith;
  third = λ i h. ground arith;
}

deq_tq1_0-values_example :
    deq_tq1_0 scalars digit_block ≡ tabulate 256 (digit_value scalars digit_block (λ i. 2))
deq_tq1_0-values_example = deq_tq1_0-values scalars digit_block-HoldsDigits

deq_q5_0-loses_example :
    deq_q5_0 scalars (λ i. 0) ≡ deq_q5_0 scalars (λ i. if i == 5 then 16 else 0)
deq_q5_0-loses_example =
    deq_q5_0-loses scalars (λ i. 0) (λ i. if i == 5 then 16 else 0) (λ i other. ground arith) refl
