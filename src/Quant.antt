-- ===== src/Quant.antt =====
-- The table of quantized types of src/quant.c, `find`, and `vg_quant_validate`.
pub mod Blocks
pub mod Half
pub mod Validate
use Prim.Native.String.{String}
use etha_jhol.Common.{
  ℕ, ◌-◌, ◌*◌, ◌/◌, ◌%◌, ◌^◌, Bool, true, false, ◌||◌, Option, none, some, List, [], ◌∷◌, ltb, ◌==◌,
  if◌then◌else◌,
}

-- `VG_QuantInfo`
pub record Info : Type 0 where
  pub kind : ℕ
  pub name : String
  pub block_size : ℕ
  pub bytes_per_block : ℕ
  pub alignment : ℕ
  pub supported_scalar : Bool
  pub supported_vulkan : Bool

abbrev info : ℕ → String → ℕ → ℕ → ℕ → Bool → Bool → Info
info k n b s w c v = record {
  kind = k;
  name = n;
  block_size = b;
  bytes_per_block = s;
  alignment = w;
  supported_scalar = c;
  supported_vulkan = v;
}

-- `g_info`
unfoldable pub infos : List Info
infos =
    info 0 "F32" 1 4 1 true true
    ∷ info 1 "F16" 1 2 1 true true
    ∷ info 30 "BF16" 1 2 1 true false
    ∷ info 4 "F64" 1 8 1 true false
    ∷ info 2 "Q4_0" 32 18 32 true true
    ∷ info 3 "Q4_1" 32 20 32 true false
    ∷ info 6 "Q5_0" 32 22 32 true false
    ∷ info 7 "Q5_1" 32 24 32 true false
    ∷ info 8 "Q8_0" 32 34 32 true true
    ∷ info 20 "IQ4_NL" 32 18 32 true false
    ∷ info 10 "Q2_K" 256 84 256 true false
    ∷ info 11 "Q3_K" 256 110 256 true false
    ∷ info 12 "Q4_K" 256 144 256 true false
    ∷ info 13 "Q5_K" 256 176 256 true false
    ∷ info 14 "Q6_K" 256 210 256 true false
    ∷ info 15 "Q8_K" 256 292 256 true false
    ∷ info 24 "I8" 1 1 1 true false
    ∷ info 25 "I16" 1 2 1 true false
    ∷ info 26 "I32" 1 4 1 true false
    ∷ info 27 "I64" 1 8 1 true false
    ∷ info 9 "Q8_1" 32 36 32 false false
    ∷ info 16 "IQ2_XXS" 256 66 256 false false
    ∷ info 17 "IQ2_XS" 256 74 256 false false
    ∷ info 18 "IQ3_XXS" 256 98 256 false false
    ∷ info 19 "IQ1_S" 256 50 256 false false
    ∷ info 21 "IQ3_S" 256 110 256 false false
    ∷ info 22 "IQ2_S" 256 82 256 false false
    ∷ info 23 "IQ4_XS" 256 136 256 false false
    ∷ info 29 "IQ1_M" 256 56 256 false false
    ∷ info 39 "MXFP4" 32 17 32 false false
    ∷ info 40 "NVFP4" 64 36 64 false false
    ∷ info 34 "TQ1_0" 256 54 256 true false
    ∷ info 35 "TQ2_0" 256 66 256 true false
    ∷ info 41 "Q1_0" 128 18 128 true false
    ∷ info 42 "Q2_0" 64 18 64 true false
    ∷ []

abbrev pub u64 : ℕ
u64 = 2 ^ 64

-- `UINT64_MAX`
abbrev pub u64_max : ℕ
u64_max = 2 ^ 64 - 1

unfoldable pub find_in : ℕ → List Info → Option Info
find_in type [] = none
find_in type (i ∷ is) = if i.kind == type then some i else find_in type is

-- `vg_quant_info`
unfoldable pub quant_info : ℕ → Option Info
unfolding infos find_in
quant_info type = find_in type infos

-- The tests of `vg_quant_validate` behind the lookup; `true` is `VG_OK`.
unfoldable pub validate_info : Info → ℕ → ℕ → Bool
validate_info q elements bytes =
    if elements == 0 || ltb 0 (elements % q.block_size)
    then false
    else if ltb (u64_max / q.bytes_per_block) (elements / q.block_size)
    then false
    else elements / q.block_size * q.bytes_per_block % u64 == bytes

-- `vg_quant_validate`
unfoldable pub quant_validate : ℕ → ℕ → ℕ → Bool
unfolding validate_info
quant_validate type elements bytes = elim (quant_info type) [
  | none ↦ false
  | some q ↦ validate_info q elements bytes
]
