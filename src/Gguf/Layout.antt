-- ===== src/Gguf/Layout.antt =====
-- Sizes of src/gguf.c: `align_up_u64`, `quant_layout`, and the size and range checks of
-- `parse_index` on one tensor. Every `uint64_t` product, sum and difference keeps its wrap-around.
pub mod Sizes
use etha_jhol.Common.{
  ℕ, zero, suc, ◌+◌, ◌-◌, ◌*◌, ◌/◌, ◌%◌, ◌^◌, Bool, true, false, ◌&&◌, ◌||◌, Option, none, some,
  List, [], ◌∷◌, ltb, leb, ◌==◌, if◌then◌else◌,
}
use etha_jhol.Common.Result.{Result, ok, fail, range, unsupported, ◌>>=◌}
use etha_jhol.Quant.{Info, quant_info, u64, u64_max}

-- `a - b` on `uint64_t`.
abbrev pub sub64 : ℕ → ℕ → ℕ
sub64 a b = (a + u64 - b) % u64

-- `VG_GGUF_Tensor`; the name is its bytes, and `n_dims` is the number of `dims`.
pub record Tensor : Type 0 where
  pub name : List ℕ
  pub dims : List ℕ
  pub ggml_type : ℕ
  pub data_offset : ℕ
  pub nbytes : ℕ

unfoldable pub align_up_u64 : ℕ → ℕ → ℕ
align_up_u64 x a =
    if ltb 0 a && leb x (sub64 u64_max (sub64 a 1))
    then sub64 ((x + a) % u64) 1 / a * a % u64
    else 0

-- The product of the slow dimensions, checked before each step.
unfoldable pub rows_of : ℕ → List ℕ → Result ℕ
rows_of rows [] = ok rows
rows_of rows (d ∷ ds) = if ltb (u64_max / d) rows then fail range else rows_of (rows * d % u64) ds

abbrev pub fast_of : List ℕ → ℕ
fast_of [] = 1
fast_of (d ∷ ds) = d

abbrev pub slow_of : List ℕ → List ℕ
slow_of [] = []
slow_of (d ∷ ds) = ds

-- `t->nbytes` from the number of rows and of fast elements. A zero divisor does not occur: each
-- dimension is at least 1, and where `nfast / block` is 0 the remainder before it is not.
unfoldable pub size_of : Info → ℕ → ℕ → Result ℕ
size_of q rows nfast =
    if ltb 0 (nfast % q.block_size)
      || ltb (u64_max / (nfast / q.block_size)) rows
      || ltb (u64_max / q.bytes_per_block) (rows * (nfast / q.block_size) % u64)
    then fail unsupported
    else ok (rows * (nfast / q.block_size) % u64 * q.bytes_per_block % u64)

-- The size by the type that the lookup gave.
unfoldable pub size_for : Option Info → ℕ → ℕ → Result ℕ
size_for none rows nfast = fail unsupported
size_for (some q) rows nfast = size_of q rows nfast

-- The size of a tensor from its type and dimensions.
unfoldable pub tensor_bytes : ℕ → List ℕ → Result ℕ
unfolding rows_of size_of size_for
tensor_bytes type dims = do
  rows ← rows_of 1 (slow_of dims)
  size_for (quant_info type) rows (fast_of dims)

-- The last check on a tensor: its bytes lie in the file.
unfoldable pub in_file : ℕ → ℕ → Tensor → Bool
in_file file_size data_base t =
    let room = sub64 file_size data_base in
    if ltb room t.data_offset then false else leb t.nbytes (sub64 room t.data_offset)
