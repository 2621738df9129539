-- ===== src/Gguf/File/Ranges.antt =====
-- What an opened file guarantees: exact sizes, ranges inside the file, and lookups by name.
use etha_jhol.Common.{
  ℕ, zero, suc, ◌+◌, ◌*◌, ◌≤◌, ◌<◌, ◌≡◌, refl, subst, arith, Bool, true, false, ◌&&◌, Option, none,
  some, List, [], ◌∷◌, ◌^◌, map, ltb, leb, ◌==◌, ltb→lt, length, All,
}
use etha_jhol.Common.Result.{Status, Result, ok, fail, range, format}
use etha_jhol.Gguf.File.{
  Run, done, error, fault, ◌>>=◌, require, expect, from_result, from_option, File, Meta, parse_dims,
  parse_tensor, parse_tensors, all_in_file, parse_index, parse_metas, finish_index, alignment_of,
  gguf_open, find_tensor, gguf_meta, linear_meta,
}
use etha_jhol.Gguf.Index.{build_index, find_name, linear_from}
use etha_jhol.Gguf.Hash.{Table}
use etha_jhol.Gguf.Index.Agrees.{find_name-linear}
use etha_jhol.Gguf.Layout.{Tensor, align_up_u64, tensor_bytes, in_file}
use etha_jhol.Gguf.Layout.Sizes.{product, tensor_bytes-exact, in_file_iff}
use etha_jhol.Gguf.Reader.{Cursor, u32, u64, read_string}
use etha_jhol.Gguf.Value.{FloatText}
use etha_jhol.Quant.{Info, quant_info}

-- What holds of a run that ends normally.
abbrev pub Ensures {ℓ κ} : {A : Type ℓ} → (A → Type κ) → Run A → Type κ
Ensures P (done a) = P a
Ensures P (error e) = Unit
Ensures P fault = Unit

-- The rule for a sequence: the rest is judged at each value that the first part can give.
Ensures-bind {ℓ κ λ₁ λ₂} :
    {A : Type ℓ} {B : Type κ} (P : A → Type λ₁) (Q : B → Type λ₂) (m : Run A) (f : A → Run B)
    → Ensures P m
    → ((a : A) → P a → Ensures Q (f a))
    → Ensures Q (m >>= f)
Ensures-bind P Q (done a) f h k = k a h
Ensures-bind P Q (error e) f h k = tt
Ensures-bind P Q fault f h k = tt

Ensures-self {ℓ} : {A : Type ℓ} (m : Run A) → Ensures (λ a. m ≡ done a) m
Ensures-self (done a) = refl
Ensures-self (error e) = tt
Ensures-self fault = tt

Ensures-done {ℓ κ} :
    {A : Type ℓ} (P : A → Type κ) (m : Run A) {a : A} → Ensures P m → m ≡ done a → P a
Ensures-done P (done b) {a} h e = let q : b ≡ a = cc in subst P q h
Ensures-done P (error b) h e = cc
Ensures-done P fault h e = cc

Ensures-require : (b : Bool) (e : Status) → Ensures (λ _. b ≡ true) (require b e)
Ensures-require true e = refl
Ensures-require false e = tt

Ensures-from_result {ℓ} : {A : Type ℓ} (r : Result A) → Ensures (λ a. r ≡ ok a) (from_result r)
Ensures-from_result (ok a) = refl
Ensures-from_result (fail e) = tt

Ensures-from_option {ℓ} : {A : Type ℓ} (o : Option A) → Ensures (λ a. o ≡ some a) (from_option o)
Ensures-from_option (some a) = refl
Ensures-from_option none = tt

-- The tensor has dimensions of at least 1, and its size is the one that its type gives.
pub record IsMeasured (t : Tensor) : Type 0 where
  pub dims_pos : All (λ d. 0 < d) t.dims
  pub sized : tensor_bytes t.ggml_type t.dims ≡ ok t.nbytes

abbrev AllPos : List ℕ × Cursor → Type 0
AllPos r = All (λ d. 0 < d) r.0

parse_dims-AllPos : (n : ℕ) (c : Cursor) → Ensures AllPos (parse_dims n c)
unfolding parse_dims
parse_dims-AllPos zero c = tt
parse_dims-AllPos (suc n) c =
    Ensures-bind _ AllPos (expect u64 c) _ (Ensures-self (expect u64 c)) λ (d, c₁) _.
      Ensures-bind _ AllPos (require (ltb 0 d) format) _ (Ensures-require (ltb 0 d) format) λ _ pos.
        Ensures-bind AllPos AllPos (parse_dims n c₁) _ (parse_dims-AllPos n c₁)
          λ r rest. (ltb→lt 0 d pos, rest)

parse_tensor-IsMeasured : (c : Cursor) → Ensures (λ r. IsMeasured r.0) (parse_tensor c)
unfolding parse_tensor
parse_tensor-IsMeasured c =
    let Q = λ (r : Tensor × Cursor). IsMeasured r.0 in
    Ensures-bind _ Q (expect read_string c) _ (Ensures-self (expect read_string c)) λ (name, c₁) _.
      Ensures-bind _ Q (expect u32 c₁) _ (Ensures-self (expect u32 c₁)) λ (nd, c₂) _.
        Ensures-bind _ Q (require (leb nd 4) format) _ (Ensures-self (require (leb nd 4) format))
          λ _ _.
            Ensures-bind AllPos Q (parse_dims nd c₂) _ (parse_dims-AllPos nd c₂) λ (dims, c₃) pos.
              Ensures-bind _ Q (expect u32 c₃) _ (Ensures-self (expect u32 c₃)) λ (type, c₄) _.
                Ensures-bind _ Q (expect u64 c₄) _ (Ensures-self (expect u64 c₄)) λ (offset, c₅) _.
                  Ensures-bind _ Q (from_result (tensor_bytes type dims)) _
                    (Ensures-from_result (tensor_bytes type dims))
                    λ size e. record { dims_pos = pos; sized = e }

parse_tensors-IsMeasured :
    (n : ℕ) (c : Cursor) → Ensures (λ r. All IsMeasured r.0) (parse_tensors n c)
unfolding parse_tensors
parse_tensors-IsMeasured zero c = tt
parse_tensors-IsMeasured (suc n) c =
    let Q = λ (r : List Tensor × Cursor). All IsMeasured r.0 in
    Ensures-bind _ Q (parse_tensor c) _ (parse_tensor-IsMeasured c) λ (t, c₁) measured.
      Ensures-bind Q Q (parse_tensors n c₁) _ (parse_tensors-IsMeasured n c₁)
        λ r rest. (measured, rest)

-- What `parse_index` guarantees of its result.
pub record IsOpen (file_size : ℕ) (f : File) : Type 0 where
  pub size : f.file_size ≡ file_size
  pub base : 0 < f.data_base
  pub measured : All IsMeasured f.tensors
  pub ranges : all_in_file f.file_size f.data_base f.tensors ≡ true
  pub tensor_index : build_index (map Tensor.name f.tensors) ≡ some f.tensor_hash
  pub meta_index : build_index (map Meta.key f.metas) ≡ some f.meta_hash

finish_index-IsOpen :
    (n : ℕ) (metas : List Meta) (tensors : List Tensor) (table_end : ℕ)
    → All IsMeasured tensors
    → Ensures (IsOpen n) (finish_index n metas tensors table_end)
unfolding finish_index
finish_index-IsOpen n metas tensors table_end measured =
    let Q = IsOpen n in
    let base = align_up_u64 table_end (alignment_of metas) in
    let names = build_index (map Tensor.name tensors) in
    let keys = build_index (map Meta.key metas) in
    Ensures-bind _ Q (require (ltb 0 base) range) _ (Ensures-require (ltb 0 base) range) λ _ pos.
      Ensures-bind _ Q (require (all_in_file n base tensors) range) _
        (Ensures-require (all_in_file n base tensors) range)
        λ _ inside.
          Ensures-bind _ Q (from_option names) _ (Ensures-from_option names) λ tensor_hash e.
            Ensures-bind _ Q (from_option keys) _ (Ensures-from_option keys) λ meta_hash e'.
              record {
                size = refl;
                base = ltb→lt 0 base pos;
                measured = measured;
                ranges = inside;
                tensor_index = e;
                meta_index = e';
              }

Ensures-step {ℓ κ λ₁} :
    {A : Type ℓ} {B : Type κ} (Q : B → Type λ₁) (m : Run A) (f : A → Run B)
    → ((a : A) → Ensures Q (f a))
    → Ensures Q (m >>= f)
Ensures-step Q (done a) f k = k a
Ensures-step Q (error e) f k = tt
Ensures-step Q fault f k = tt

module _ (floats : FloatText) where
  parse_index-IsOpen :
      (file_size : ℕ) (c : Cursor) → Ensures (IsOpen file_size) (parse_index floats file_size c)
  unfolding parse_index
  parse_index-IsOpen n c =
      let Q = IsOpen n in
      Ensures-step Q (expect u32 c) _ λ (magic, c₁).
        Ensures-step Q (require (magic == 0x46554747) format) _ λ _.
          Ensures-step Q (expect u32 c₁) _ λ (version, c₂).
            Ensures-step Q (require (leb 2 version && leb version 3) format) _ λ _.
              Ensures-step Q (expect u64 c₂) _ λ (tensor_count, c₃).
                Ensures-step Q (expect u64 c₃) _ λ (kv_count, c₄).
                  Ensures-step Q
                    (require (leb tensor_count (2 ^ 24) && leb kv_count (2 ^ 24)) range) _
                    λ _. Ensures-step Q (parse_metas floats kv_count c₄) _ λ (metas, c₅).
                      Ensures-bind (λ r. All IsMeasured r.0) Q (parse_tensors tensor_count c₅) _
                        (parse_tensors-IsMeasured tensor_count c₅)
                        λ (tensors, c₆) measured.
                          finish_index-IsOpen n metas tensors c₆.pos measured

  gguf_open-IsOpen :
      (bytes : List ℕ) → Ensures (IsOpen (length bytes)) (gguf_open floats (some bytes))
  unfolding gguf_open
  gguf_open-IsOpen bytes =
      Ensures-step (IsOpen (length bytes)) (require (leb 24 (length bytes)) format) _
        λ _. parse_index-IsOpen (length bytes) (record { rest = bytes; pos = 0 })

-- A tensor of an open file: whole blocks of a known type, of exactly `nbytes` bytes, which end
-- inside the file.
pub record IsPlaced (f : File) (t : Tensor) : Type 0 where
  pub dims_pos : All (λ d. 0 < d) t.dims
  pub exact :
      (q : Info) × (quant_info t.ggml_type ≡ some q)
      × (t.nbytes < 2 ^ 64)
      × ((k : ℕ) × (product t.dims ≡ k * q.block_size) × (t.nbytes ≡ k * q.bytes_per_block))
  pub inside : f.data_base + t.data_offset + t.nbytes ≤ f.file_size

and_true : (a b : Bool) → (a && b) ≡ true → (a ≡ true) × (b ≡ true)
and_true a b h = ground arith

All-IsPlaced :
    (f : File) (ts : List Tensor)
    → f.data_base ≤ f.file_size
    → f.file_size < 2 ^ 64
    → All IsMeasured ts
    → all_in_file f.file_size f.data_base ts ≡ true
    → All (IsPlaced f) ts
unfolding all_in_file
All-IsPlaced f [] base small measured ranges = tt
All-IsPlaced f (t ∷ ts) base small (m, measured) ranges =
    let (here, rest) = and_true (in_file f.file_size f.data_base t) _ ranges in
    (
      record {
        dims_pos = m.dims_pos;
        exact = tensor_bytes-exact t.ggml_type t.dims m.dims_pos m.sized;
        inside = (in_file_iff f.file_size f.data_base t base small).0 here;
      },
      All-IsPlaced f ts base small measured rest,
    )

module _ (floats : FloatText) (bytes : List ℕ) {f : File}
    (opened : gguf_open floats (some bytes) ≡ done f) where
  IsOpen-facts : IsOpen (length bytes) f
  IsOpen-facts = Ensures-done (IsOpen (length bytes)) _ (gguf_open-IsOpen floats bytes) opened

  -- In a file below 2^64 bytes that opens, and whose data section begins inside the file, every tensor has
  -- dimensions of at least 1, a known type, the exact size of its blocks, and ends inside the file.
  pub gguf_open-IsPlaced :
      length bytes < 2 ^ 64 → f.data_base ≤ length bytes → All (IsPlaced f) f.tensors
  gguf_open-IsPlaced small base =
      let h = IsOpen-facts in
      All-IsPlaced f f.tensors (rw h.size base) (rw h.size small) h.measured h.ranges

  index_of :
      (names : List (List ℕ)) (t : Table) (key : List ℕ)
      → build_index names ≡ some t
      → find_name t names key ≡ linear_from 0 names key
  index_of names t key built =
      let (t', run, agrees) = find_name-linear names in
      let same : t ≡ t' = cc (built, run) in rw same (agrees key)

  -- In a file that opens, a lookup of a tensor or of a metadata key by name gives what the loop
  -- over all tensors or all entries gives: the first of that name.
  pub gguf_open-lookups :
      (name key : List ℕ)
      → (find_tensor f name ≡ linear_from 0 (map Tensor.name f.tensors) name)
        × (gguf_meta f key ≡ linear_meta f.metas key)
  unfolding find_tensor gguf_meta linear_meta
  gguf_open-lookups name key =
      let h = IsOpen-facts in
      (
        index_of (map Tensor.name f.tensors) f.tensor_hash name h.tensor_index,
        rw (gguf_meta, linear_meta, index_of (map Meta.key f.metas) f.meta_hash key h.meta_index),
      )
