-- ===== src/Gguf/Layout/Sizes.antt =====
-- The sizes that the index computes are exact, and the range check means what it should where the
-- data section begins inside the file.
use etha_jhol.Common.{
  ℕ, ◌+◌, ◌-◌, ◌*◌, ◌/◌, ◌%◌, ◌≤◌, ◌<◌, ◌≡◌, ◌↔◌, refl, sym, ap, ◌∙◌, arith, Bool, true, false,
  ◌&&◌, ◌||◌, Option, none, some, List, [], ◌∷◌, ltb, leb, if◌then◌else◌, All, inl, inr, ltb→ge,
  Bool-cases,
}
use etha_jhol.Common.Result.{ok, fail, unsupported, >>=-eq-ok}
use etha_jhol.Gguf.Layout.{
  sub64, Tensor, align_up_u64, rows_of, fast_of, slow_of, size_of, size_for, tensor_bytes, in_file,
}
use etha_jhol.Quant.{Info, quant_info, u64, u64_max}
use etha_jhol.Quant.Validate.{IsRow, quant_info-IsRow, pos_of_mul}
use native.Mathlib.Nat.{
  div-add-mod', le-div_iff_mul-le, mod-eq_of_lt, mul-mod_left, mul_assoc, mul_comm, div-mul-le_self,
  lt-div-mul-add, div-lt_iff_lt-mul,
}

unfoldable pub product : List ℕ → ℕ
product [] = 1
product (d ∷ ds) = d * product ds

-- The product of the checked loop is exact.
rows_of-product :
    (rows : ℕ) (ds : List ℕ) {n : ℕ}
    → rows < u64
    → All (λ d. 0 < d) ds
    → rows_of rows ds ≡ ok n
    → (n ≡ rows * product ds) × (n < u64)
unfolding rows_of product
rows_of-product rows [] small pos h = ground arith
rows_of-product rows (d ∷ ds) {n} small pos h = elim (Bool-cases (ltb (u64_max / d) rows)) [
  | inl over ↦ absurd (cc (rw (over, rows_of) at h))
  | inr fits ↦
      let bound : rows * d < u64 =
        omega (arith, (le-div_iff_mul-le pos.0).0 (ltb→ge (u64_max / d) rows fits)) in
      let exact : rows * d % u64 ≡ rows * d = mod-eq_of_lt bound in
      let (value, lt) =
        rows_of-product (rows * d % u64) ds {n = n} (rw exact bound) pos.1
          (rw (fits, rows_of) at h) in
      (value ∙ ap (λ (x : ℕ). x * product ds) exact ∙ mul_assoc rows d (product ds), lt)
]

-- A type's size of a tensor, with no wrap-around on the way: `k` whole blocks.
record IsSized (q : Info) (rows nfast nbytes : ℕ) : Type 0 where
  small : nbytes < u64
  whole : (k : ℕ) × (rows * nfast ≡ k * q.block_size) × (nbytes ≡ k * q.bytes_per_block)

or_false : (a b : Bool) → (a || b) ≡ false → (a ≡ false) × (b ≡ false)
or_false a b h = ground arith

if_fail :
    (b : Bool) {n m : ℕ} → (if b then fail unsupported else ok n) ≡ ok m → (b ≡ false) × (n ≡ m)
if_fail b h = ground arith

size_of-IsSized :
    (q : Info) (rows nfast : ℕ) {nbytes : ℕ}
    → IsRow q
    → 0 < nfast
    → size_of q rows nfast ≡ ok nbytes
    → IsSized q rows nfast nbytes
unfolding size_of
size_of-IsSized q rows nfast {nbytes} row pos h =
    let blocks = nfast / q.block_size in
    let (tests, value) =
      if_fail
        (ltb 0 (nfast % q.block_size)
          || ltb (u64_max / blocks) rows
          || ltb (u64_max / q.bytes_per_block) (rows * blocks % u64))
        h in
    let (first, bytes_fit) =
      or_false (ltb 0 (nfast % q.block_size) || ltb (u64_max / blocks) rows) _ tests in
    let (divides, rows_fit) = or_false (ltb 0 (nfast % q.block_size)) _ first in
    let exact : nfast ≡ blocks * q.block_size =
      omega (arith, div-add-mod' nfast q.block_size, ltb→ge 0 (nfast % q.block_size) divides) in
    let blocks_pos : 0 < blocks = pos_of_mul blocks q.block_size exact pos in
    let count_fits : rows * blocks < u64 =
      omega (arith, (le-div_iff_mul-le blocks_pos).0 (ltb→ge (u64_max / blocks) rows rows_fit)) in
    let count : rows * blocks % u64 ≡ rows * blocks = mod-eq_of_lt count_fits in
    let size_fits : rows * blocks * q.bytes_per_block < u64 = omega (
      arith,
      (le-div_iff_mul-le row.bytes_pos).0
          (rw count at (ltb→ge (u64_max / q.bytes_per_block) (rows * blocks % u64) bytes_fit)),
    ) in
    let sized : nbytes ≡ rows * blocks * q.bytes_per_block =
      sym value ∙ ap (λ (x : ℕ). x * q.bytes_per_block % u64) count ∙ mod-eq_of_lt size_fits in
    record {
      small = omega (arith, sized, size_fits);
      whole =
          (rows * blocks, ap (◌*◌ rows) exact ∙ sym (mul_assoc rows blocks q.block_size), sized);
    }

size_for-eq-ok :
    (o : Option Info) (rows nfast : ℕ) {n : ℕ}
    → size_for o rows nfast ≡ ok n
    → (q : Info) × (o ≡ some q) × (size_of q rows nfast ≡ ok n)
unfolding size_for
size_for-eq-ok none rows nfast h = cc
size_for-eq-ok (some q) rows nfast h = (q, refl, h)

fast-product : (dims : List ℕ) → product dims ≡ product (slow_of dims) * fast_of dims
unfolding product
fast-product [] = refl
fast-product (d ∷ ds) = mul_comm d (product ds)

fast-pos : (dims : List ℕ) → All (λ d. 0 < d) dims → 0 < fast_of dims
fast-pos [] h = omega arith
fast-pos (d ∷ ds) h = h.0

slow-pos : (dims : List ℕ) → All (λ d. 0 < d) dims → All (λ d. 0 < d) (slow_of dims)
slow-pos [] h = tt
slow-pos (d ∷ ds) h = h.1

-- Where every dimension is at least 1, a computed size is exact: the tensor's elements are whole blocks of its type, and `nbytes` is
-- their true size, below 2^64.
pub tensor_bytes-exact :
    (type : ℕ) (dims : List ℕ) {nbytes : ℕ}
    → All (λ d. 0 < d) dims
    → tensor_bytes type dims ≡ ok nbytes
    → (q : Info) × (quant_info type ≡ some q)
      × (nbytes < u64)
      × ((k : ℕ) × (product dims ≡ k * q.block_size) × (nbytes ≡ k * q.bytes_per_block))
unfolding tensor_bytes
tensor_bytes-exact type dims {nbytes} pos h =
    let (rows, counted, rest) = >>=-eq-ok (rows_of 1 (slow_of dims)) _ h in
    let (value, _) =
      rows_of-product 1 (slow_of dims) {n = rows} (omega arith) (slow-pos dims pos) counted in
    let (q, e, computed) = size_for-eq-ok (quant_info type) rows (fast_of dims) rest in
    let sized =
      size_of-IsSized q rows (fast_of dims) {nbytes = nbytes} (quant_info-IsRow type q e).0
        (fast-pos dims pos) computed in
    let (k, whole, size) = sized.whole in
    let slow : product (slow_of dims) ≡ rows = omega (arith, value) in
    (
      q,
      e,
      sized.small,
      (k, fast-product dims ∙ ap (λ (x : ℕ). x * fast_of dims) slow ∙ whole, size),
    )

-- Where the data section begins inside a file below 2^64 bytes, the range check accepts a tensor exactly if its
-- last byte lies in the file.
pub in_file_iff :
    (file_size data_base : ℕ) (t : Tensor)
    → data_base ≤ file_size
    → file_size < u64
    → (in_file file_size data_base t ≡ true) ↔ (data_base + t.data_offset + t.nbytes ≤ file_size)
unfolding in_file
in_file_iff file_size data_base t base small = ground arith

-- Where the padding behind the index puts the data section behind the end of the file, the room is
-- computed with wrap-around: the check accepts every tensor whose offset and size leave room below
-- 2^64, and all its bytes lie behind the end of the file.
pub in_file-wraps :
    (file_size data_base : ℕ) (t : Tensor)
    → file_size < data_base
    → data_base < u64
    → t.data_offset + t.nbytes + data_base ≤ u64
    → (in_file file_size data_base t ≡ true) × (file_size < data_base + t.data_offset)
unfolding in_file
in_file-wraps file_size data_base t behind small fits = ground arith

align_up_u64-eq : (x a : ℕ) → 0 < a → x + a ≤ u64 → align_up_u64 x a ≡ (x + a - 1) / a * a
unfolding align_up_u64
align_up_u64-eq x a pos fits =
    let sum : sub64 ((x + a) % u64) 1 ≡ x + a - 1 = omega arith in
    let below : (x + a - 1) / a * a < u64 = omega (arith, div-mul-le_self (x + a - 1) a) in
    let test : (ltb 0 a && leb x (sub64 u64_max (sub64 a 1))) ≡ true = ground arith in
    rw test (ap (λ (y : ℕ). y / a * a % u64) sum ∙ mod-eq_of_lt below)

-- The data base: where there is room below 2^64 it is a multiple of the alignment, and a multiple
-- of the alignment is not below it exactly if it is not below the end of the index.
pub align_up_u64-least :
    (x a m : ℕ)
    → 0 < a
    → x + a ≤ u64
    → (align_up_u64 x a % a ≡ 0) × ((align_up_u64 x a ≤ m * a) ↔ (x ≤ m * a))
align_up_u64-least x a m pos fits =
    let y = x + a - 1 in
    rw (align_up_u64-eq x a pos fits) (
      mul-mod_left (y / a) a,
      (
        λ h. omega (arith, h, lt-div-mul-add {a = y} {b = a} pos),
        λ h. let lt : y / a < m + 1 = (div-lt_iff_lt-mul pos).1 (omega arith) in grind (arith, lt),
      ),
    )
