-- ===== src/Quant/Validate.antt =====
-- What `vg_quant_validate` accepts: exactly the byte counts of whole blocks of a known type.
use etha_jhol.Common.{
  ℕ, zero, suc, ◌*◌, ◌/◌, ◌%◌, ◌<◌, ◌≤◌, ◌≡◌, ◌↔◌, inl, inr, refl, ap, ◌∙◌, Bool, true, false, ◌&&◌,
  none, some, List, [], ◌∷◌, arith, ltb, leb, Option-cases,
}
use etha_jhol.Quant.{Info, infos, u64, u64_max, find_in, quant_info, validate_info, quant_validate}
use native.Mathlib.Nat.{div-add-mod', le-div_iff_mul-le, mod-eq_of_lt, mul-div_cancel, mul-mod_left}

-- A row of the table has whole blocks.
pub record IsRow (q : Info) : Type 0 where
  pub block_pos : 0 < q.block_size
  pub bytes_pos : 0 < q.bytes_per_block
  pub bytes_small : q.bytes_per_block ≤ 292

row_ok : Info → Bool
row_ok q = ltb 0 q.block_size && ltb 0 q.bytes_per_block && leb q.bytes_per_block 292

rows_ok : List Info → Bool
rows_ok [] = true
rows_ok (q ∷ qs) = row_ok q && rows_ok qs

infos_ok : rows_ok infos ≡ true
unfolding rows_ok row_ok infos
infos_ok = refl

find_in-IsRow :
    (type : ℕ) (qs : List Info) (q : Info)
    → rows_ok qs ≡ true
    → find_in type qs ≡ some q
    → IsRow q × (q.kind ≡ type)
unfolding find_in rows_ok row_ok
find_in-IsRow type [] q h e = cc
find_in-IsRow type (r ∷ qs) q h e = ground (arith, find_in-IsRow type qs q)

-- The lookup gives a row of the table, and that row's kind is the type asked for.
pub quant_info-IsRow : (type : ℕ) (q : Info) → quant_info type ≡ some q → IsRow q × (q.kind ≡ type)
unfolding quant_info
quant_info-IsRow type q e = find_in-IsRow type infos q infos_ok e

-- `k` whole blocks of the type `q`, and no wrap-around in their size.
pub record IsWhole (q : Info) (elements bytes k : ℕ) : Type 0 where
  pub some_blocks : 0 < k
  pub blocks : elements ≡ k * q.block_size
  pub size : bytes ≡ k * q.bytes_per_block

pub pos_of_mul : (k b : ℕ) {n : ℕ} → n ≡ k * b → 0 < n → 0 < k
pos_of_mul zero b e h = absurd (omega arith)
pos_of_mul (suc k) b e h = omega arith

validate_info-IsWhole :
    (q : Info) (elements bytes : ℕ)
    → IsRow q
    → validate_info q elements bytes ≡ true
    → IsWhole q elements bytes (elements / q.block_size)
unfolding validate_info
validate_info-IsWhole q elements bytes row h =
    let k = elements / q.block_size in
    let whole : elements ≡ k * q.block_size =
      omega (arith, div-add-mod' elements q.block_size, divides) in
    record {
      some_blocks = pos_of_mul k q.block_size whole nonzero;
      blocks = whole;
      size = omega (arith, sized, mod-eq_of_lt {n = k * q.bytes_per_block} {m = u64} fits);
    }
  where
    k' : ℕ
    k' = elements / q.block_size

    divides : elements % q.block_size ≡ 0
    divides = ground arith

    nonzero : 0 < elements
    nonzero = ground arith

    small : k' ≤ u64_max / q.bytes_per_block
    small = ground arith

    sized : k' * q.bytes_per_block % u64 ≡ bytes
    sized = ground arith

    fits : k' * q.bytes_per_block < u64
    fits = omega (arith, (le-div_iff_mul-le row.bytes_pos).0 small)

IsWhole-validate_info :
    (q : Info) (elements bytes k : ℕ)
    → IsRow q
    → bytes < u64
    → IsWhole q elements bytes k
    → validate_info q elements bytes ≡ true
unfolding validate_info
IsWhole-validate_info q elements bytes k row small w =
    let blocks : elements / q.block_size ≡ k =
      ap (λ (x : ℕ). x / q.block_size) w.blocks ∙ mul-div_cancel k row.block_pos in
    let rest : elements % q.block_size ≡ 0 =
      ap (λ (x : ℕ). x % q.block_size) w.blocks ∙ mul-mod_left k q.block_size in
    let nonzero : 0 < elements = grind (arith, w.blocks, w.some_blocks, row.block_pos) in
    let fits : k ≤ u64_max / q.bytes_per_block =
      (le-div_iff_mul-le row.bytes_pos).1 (omega (arith, w.size)) in
    let exact : k * q.bytes_per_block % u64 ≡ bytes = omega (arith, w.size) in ground arith

-- `vg_quant_validate` accepts a byte count below 2^64 exactly if the type is in the table and the
-- elements are one or more whole blocks whose exact size, with no wrap-around, is that count.
pub quant_validate_iff :
    (type elements bytes : ℕ)
    → bytes < u64
    → (quant_validate type elements bytes ≡ true)
      ↔ ((q : Info) × (quant_info type ≡ some q) × ((k : ℕ) × IsWhole q elements bytes k))
unfolding quant_validate
quant_validate_iff type elements bytes small = (
  λ h. elim (Option-cases (quant_info type)) [
    | inl e ↦ absurd (cc (unknown e h))
    | inr (q, e) ↦ (
      q,
      e,
      (
        elements / q.block_size,
        validate_info-IsWhole q elements bytes (quant_info-IsRow type q e).0 (known q e h),
      ),
    )
  ],
  λ (q, e, (k, w)).
      rw (e, quant_validate)
        (IsWhole-validate_info q elements bytes k (quant_info-IsRow type q e).0 small w),
)
  where
    unknown :
        quant_info type ≡ none
        → quant_validate type elements bytes ≡ true
        → ◌≡◌ {A = Bool} false true
    unknown e h = rw (e, quant_validate) at h

    known :
        (q : Info)
        → quant_info type ≡ some q
        → quant_validate type elements bytes ≡ true
        → validate_info q elements bytes ≡ true
    known q e h = rw (e, quant_validate) at h
