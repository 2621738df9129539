-- ===== src/Gguf/Read.antt =====
-- `vg_gguf_map` and `vg_gguf_read` of src/gguf.c. The calls of the system are a parameter.
pub mod Slices
use etha_jhol.Common.{
  ℕ, zero, suc, ◌+◌, ◌-◌, ◌*◌, ◌/◌, ◌%◌, ◌^◌, ◌<◌, ◌≤◌, ◌≡◌, refl, sym, ap, ◌∙◌, arith, Bool, true,
  false, ◌&&◌, ◌||◌, not, Option, none, some, List, [], ◌∷◌, ltb, leb, ◌==◌, if◌then◌else◌, length,
  take, drop, Bool-cases, Option-cases,
}
use etha_jhol.Common.Result.{Status, io, range, Result, ok, fail}
use etha_jhol.Gguf.File.{File}
use etha_jhol.Gguf.Layout.{Tensor, sub64}
use etha_jhol.Quant.{u64}

-- What the system answers, for one model file: whether `open` and `mmap` succeed, whether `open` with
-- O_DIRECT does, what `pread` puts into the buffer, and what `fseek` and a full `fread` give.
pub record Disk : Type 0 where
  pub maps : Bool
  pub mapping : List ℕ
  pub opens_direct : Bool
  pub pread : (offset size : ℕ) → Option (List ℕ)
  pub fread : (offset size : ℕ) → Option (List ℕ)

-- The fields of `VG_GGUF` that change after the index is read.
pub record Handle : Type 0 where
  pub file : File
  pub direct_io : Bool
  pub mapped : Bool

-- `size` bytes from `offset` on.
abbrev pub slice : ℕ → ℕ → List ℕ → List ℕ
slice offset size bytes = take size (drop offset bytes)

-- `vg_gguf_map`, with the size of the mapping.
unfoldable pub gguf_map : Disk → Handle → Handle × Result ℕ
gguf_map disk g =
    if g.mapped
    then (g, ok g.file.file_size)
    else if disk.maps
    then (record g { mapped = true }, ok g.file.file_size)
    else (g, fail io)

-- `vg_gguf_unmap`
unfoldable pub gguf_unmap : Handle → Handle
gguf_unmap g = record g { mapped = false }

-- `vg_gguf_set_direct_io`
unfoldable pub set_direct_io : Bool → Handle → Handle
set_direct_io on g = record g { direct_io = on }

-- The read of whole sectors of 512 bytes around the range.
unfoldable pub read_direct : Disk → ℕ → ℕ → Result (List ℕ)
read_direct disk abs n =
    let align : ℕ = 512 in
    let aligned_off = abs / align * align in
    let skip = abs - aligned_off in
    let aligned_n = (n + skip + align - 1) / align * align in
    if not disk.opens_direct then fail io else elim (disk.pread aligned_off aligned_n) [
      | none ↦ fail io
      | some buffer ↦
          if ltb (length buffer) (skip + n) then fail io else ok (take n (drop skip buffer))
    ]

unfoldable pub read_buffered : Disk → ℕ → ℕ → Result (List ℕ)
read_buffered disk abs n = elim (disk.fread abs n) [ none ↦ fail io | some bytes ↦ ok bytes ]

-- The place of the byte `off` of the tensor in the file.
abbrev pub place : File → Tensor → ℕ → ℕ
place file t off = (file.data_base + t.data_offset + off) % u64

-- The mapping that a read makes where there is none.
unfoldable pub mapped_by_read : Disk → Handle → Handle
unfolding gguf_map
mapped_by_read disk g = if not g.mapped && ltb 0 g.file.file_size then (gguf_map disk g).0 else g

unfoldable pub read_at : Disk → Handle → ℕ → ℕ → Result (List ℕ)
unfolding read_direct read_buffered
read_at disk g abs n =
    if g.mapped && leb abs g.file.file_size && leb n (sub64 g.file.file_size abs)
    then ok (slice abs n disk.mapping)
    else if g.direct_io
    then read_direct disk abs n
    else read_buffered disk abs n

-- `vg_gguf_read`
unfoldable pub gguf_read : Disk → Handle → Tensor → ℕ → ℕ → Handle × Result (List ℕ)
unfolding mapped_by_read read_at
gguf_read disk g t off n =
    if ltb t.nbytes off || ltb (t.nbytes - off) n
    then (g, fail range)
    else (let g' = mapped_by_read disk g in (g', read_at disk g' (place g.file t off) n))
