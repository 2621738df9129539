-- ===== src/Gguf/File.antt =====
-- `parse_index`, `vg_gguf_open` and the lookups of src/gguf.c, over the bytes of the file.
pub mod Ranges
pub mod Numbers
use etha_jhol.Common.{
  ℕ, zero, suc, ◌+◌, ◌-◌, ◌*◌, ◌/◌, ◌%◌, ◌^◌, Bool, true, false, ◌&&◌, ◌||◌, not, Option, none,
  some, List, [], ◌∷◌, ◌++◌, map, ltb, leb, ◌==◌, if◌then◌else◌, length, get_elem?,
}
use etha_jhol.Common.Result.{Status, io, format, range, unsupported, Result, ok, fail}
use etha_jhol.Gguf.Hash.{Table}
use etha_jhol.Gguf.Index.{build_index, find_name, linear_from}
use etha_jhol.Gguf.Layout.{Tensor, align_up_u64, rows_of, tensor_bytes, in_file}
use etha_jhol.Gguf.Reader.{Cursor, Outcome, got, null, overflow, Reader, u32, u64, read_string}
use etha_jhol.Gguf.Value.{FloatText, read_scalar_value}
use mathlib.Core.Option

-- `error` is a status that the code returns, and `fault` an access outside an allocation.
pub data Run {ℓ} (A : Type ℓ) : Type ℓ where
  done : A → Run A
  error : Status → Run A
  fault : Run A

infixl 5 ◌>>=◌ ◌>>◌
abbrev pub ◌>>=◌ {ℓ κ} : {A : Type ℓ} {B : Type κ} → Run A → (A → Run B) → Run B
done a >>= f = f a
error e >>= f = error e
fault >>= f = fault

abbrev pub ◌>>◌ {ℓ} : {B : Type ℓ} → Run (Unit {0}) → Run B → Run B
m >> k = m >>= λ _. k

-- `if (!b) return e;`
abbrev pub require : Bool → Status → Run (Unit {0})
require true e = done tt
require false e = error e

-- `if (!read(...)) return VG_E_FORMAT;`
abbrev pub expect {ℓ} : {A : Type ℓ} → Reader A → Cursor → Run (A × Cursor)
expect m c = elim (m c) [ got r ↦ done r | null ↦ error format | overflow ↦ fault ]

abbrev pub from_result {ℓ} : {A : Type ℓ} → Result A → Run A
from_result (ok a) = done a
from_result (fail e) = error e

abbrev pub from_option {ℓ} : {A : Type ℓ} → Option A → Run A
from_option (some a) = done a
from_option none = fault

-- `VG_Meta`
pub record Meta : Type 0 where
  pub key : List ℕ
  pub value : List ℕ

-- `VG_GGUF` after the index is read: what the other functions look at.
pub record File : Type 0 where
  pub file_size : ℕ
  pub data_base : ℕ
  pub tensors : List Tensor
  pub metas : List Meta
  pub tensor_hash : Table
  pub meta_hash : Table

-- `strtoull(s, NULL, 10)`: blanks, a sign, digits; too large a number gives ULLONG_MAX.
is_blank : ℕ → Bool
is_blank c = (c == b' ') || (leb 9 c && leb c 13)

is_digit : ℕ → Bool
is_digit c = leb b'0' c && leb c b'9'

-- `none` is a number that does not fit.
digits_value : ℕ → List ℕ → Option ℕ
digits_value v [] = some v
digits_value v (c ∷ s) =
    let v' = v * 10 + (c - b'0') in
    let rest = digits_value v' s in
    if is_digit c then (if leb (2 ^ 64) v' then none else rest) else some v

signed_value : List ℕ → ℕ
signed_value [] = 0
signed_value (c ∷ s) =
    if c == b'-'
    then Option.get_or (Option.map (λ v. (2 ^ 64 - v) % 2 ^ 64) (digits_value 0 s)) (2 ^ 64 - 1)
    else if c == b'+'
    then Option.get_or (digits_value 0 s) (2 ^ 64 - 1)
    else Option.get_or (digits_value 0 (c ∷ s)) (2 ^ 64 - 1)

unfoldable pub strtoull : List ℕ → ℕ
unfolding is_blank is_digit digits_value signed_value
strtoull [] = 0
strtoull (c ∷ s) = let rest = strtoull s in if is_blank c then rest else signed_value (c ∷ s)

-- "general.alignment"
abbrev alignment_key : List ℕ
alignment_key =
    b'g' ∷ b'e' ∷ b'n' ∷ b'e' ∷ b'r' ∷ b'a' ∷ b'l' ∷ b'.' ∷ b'a' ∷ b'l' ∷ b'i' ∷ b'g' ∷ b'n' ∷ b'm'
    ∷ b'e' ∷ b'n' ∷ b't' ∷ []

-- `vg_gguf_meta` over the entries, by the loop.
unfoldable pub linear_meta : List Meta → List ℕ → Option (List ℕ)
unfolding linear_from
linear_meta metas key = elim (linear_from 0 (map Meta.key metas) key) [
  | none ↦ none
  | some i ↦ Option.map Meta.value (get_elem? metas i)
]

-- The dimensions of a tensor, none of them zero.
unfoldable pub parse_dims : ℕ → Cursor → Run (List ℕ × Cursor)
parse_dims zero c = done ([], c)
parse_dims (suc n) c = do
  (d, c₁) ← expect u64 c
  require (ltb 0 d) format
  (ds, c₂) ← parse_dims n c₁
  done (d ∷ ds, c₂)

-- One entry of the tensor table.
unfoldable pub parse_tensor : Cursor → Run (Tensor × Cursor)
unfolding parse_dims tensor_bytes
parse_tensor c = do
  (name, c₁) ← expect read_string c
  (nd, c₂) ← expect u32 c₁
  require (leb nd 4) format
  (dims, c₃) ← parse_dims nd c₂
  (type, c₄) ← expect u32 c₃
  (offset, c₅) ← expect u64 c₄
  size ← from_result (tensor_bytes type dims)
  done (
    record { name = name; dims = dims; ggml_type = type; data_offset = offset; nbytes = size },
    c₅,
  )

unfoldable pub parse_tensors : ℕ → Cursor → Run (List Tensor × Cursor)
parse_tensors zero c = done ([], c)
parse_tensors (suc n) c = do
  (t, c₁) ← parse_tensor c
  (ts, c₂) ← parse_tensors n c₁
  done (t ∷ ts, c₂)

-- The loop that checks the range of every tensor.
unfoldable pub all_in_file : ℕ → ℕ → List Tensor → Bool
all_in_file file_size data_base [] = true
all_in_file file_size data_base (t ∷ ts) =
    in_file file_size data_base t && all_in_file file_size data_base ts

-- `general.alignment`, where it lies between 1 and 4096; 32 otherwise.
unfoldable pub alignment_of : List Meta → ℕ
unfolding strtoull linear_meta
alignment_of metas = elim (linear_meta metas alignment_key) [
  | none ↦ 32
  | some a ↦ let x = strtoull a in if leb 1 x && leb x 4096 then x else 32
]

-- The end of `parse_index`: the data base, the range checks and the name indexes.
unfoldable pub finish_index : ℕ → List Meta → List Tensor → ℕ → Run File
finish_index file_size metas tensors table_end = do
  let base = align_up_u64 table_end (alignment_of metas)
  require (ltb 0 base) range
  require (all_in_file file_size base tensors) range
  tensor_hash ← from_option (build_index (map Tensor.name tensors))
  meta_hash ← from_option (build_index (map Meta.key metas))
  done (record {
    file_size = file_size;
    data_base = base;
    tensors = tensors;
    metas = metas;
    tensor_hash = tensor_hash;
    meta_hash = meta_hash;
  })

module _ (floats : FloatText) where
  -- Values nest at most one level for each twelve bytes left, and one byte is a level more.
  unfoldable pub parse_meta : Cursor → Run (Meta × Cursor)
  parse_meta c = do
    (key, c₁) ← expect read_string c
    (type, c₂) ← expect u32 c₁
    (value, c₃) ← expect (read_scalar_value floats (length c₂.rest + 1) type) c₂
    done (record { key = key; value = value }, c₃)

  unfoldable pub parse_metas : ℕ → Cursor → Run (List Meta × Cursor)
  parse_metas zero c = done ([], c)
  parse_metas (suc n) c = do (m, c₁) ← parse_meta c; (ms, c₂) ← parse_metas n c₁; done (m ∷ ms, c₂)

  -- `parse_index`. Where there is no tensor, the table ends where it begins.
  unfoldable pub parse_index : ℕ → Cursor → Run File
  parse_index file_size c = do
    (magic, c₁) ← expect u32 c
    require (magic == 0x46554747) format
    (version, c₂) ← expect u32 c₁
    require (leb 2 version && leb version 3) format
    (tensor_count, c₃) ← expect u64 c₂
    (kv_count, c₄) ← expect u64 c₃
    require (leb tensor_count (2 ^ 24) && leb kv_count (2 ^ 24)) range
    (metas, c₅) ← parse_metas kv_count c₄
    (tensors, c₆) ← parse_tensors tensor_count c₅
    finish_index file_size metas tensors c₆.pos

  -- `vg_gguf_open`; `none` is a file that cannot be opened.
  unfoldable pub gguf_open : Option (List ℕ) → Run File
  unfolding parse_index
  gguf_open none = error io
  gguf_open (some bytes) = do
    require (leb 24 (length bytes)) format
    parse_index (length bytes) (record { rest = bytes; pos = 0 })

-- `vg_gguf_find_tensor`: the position of the tensor.
unfoldable pub find_tensor : File → List ℕ → Option ℕ
find_tensor f name = find_name f.tensor_hash (map Tensor.name f.tensors) name

-- `vg_gguf_meta` on an open file.
unfoldable pub gguf_meta : File → List ℕ → Option (List ℕ)
gguf_meta f key = elim (find_name f.meta_hash (map Meta.key f.metas) key) [
  | none ↦ none
  | some i ↦ Option.map Meta.value (get_elem? f.metas i)
]
