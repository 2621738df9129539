-- ===== src/TensorSource/OpenFile.antt =====
-- The cache's view of an open file: `vg_gguf_find_tensor`, `vg_gguf_tensor_at`, `vg_gguf_read`.
use etha_jhol.Common.{
  ℕ, ◌+◌, ◌^◌, ◌<◌, ◌≤◌, ◌≡◌, sym, ap, ◌∙◌, arith, true, Option, some, List, [], ◌==◌,
  if◌then◌else◌, length, take, drop, drop-drop, get_or,
}
use etha_jhol.Common.Result.{Status, ok}
use etha_jhol.Gguf.File.{find_tensor}
use etha_jhol.Gguf.File.Ranges.{IsPlaced}
use etha_jhol.Gguf.Layout.{Tensor}
use etha_jhol.Gguf.Read.{Disk, Handle, slice, gguf_map, gguf_read}
use etha_jhol.Gguf.Read.Slices.{take-drop-take, gguf_read-total}
use etha_jhol.TensorSource.Cache.{Source}
use etha_jhol.TensorSource.Lease.{Reader}
use etha_jhol.TensorSource.Stream.{Chunk, tensor_stream}
use etha_jhol.TensorSource.Stream.Chunks.{feed, IsSplit, length-slice, tensor_stream-chunks}

abbrev no_tensor : Tensor
no_tensor = record { name = []; dims = []; ggml_type = 0; data_offset = 0; nbytes = 0 }

-- What the cache sees of the open file. Whether a read has to map the file first does not change what
-- it gives.
abbrev pub reader_of : Disk → Handle → Reader
reader_of disk g = record {
  count = length g.file.tensors;
  tensor = λ t. get_or g.file.tensors t no_tensor;
  find = find_tensor g.file;
  data_base = g.file.data_base;
  map_size = (gguf_map disk g).1;
  read = λ t off n. (gguf_read disk g (get_or g.file.tensors t no_tensor) off n).1;
}

-- The bytes of a tensor in the file.
abbrev pub content_of : Disk → Handle → Tensor → List ℕ
content_of disk g t = slice (g.file.data_base + t.data_offset) t.nbytes disk.mapping

-- Of an open file that can be mapped, `vg_tensor_stream` hands the consumer the bytes of a tensor that
-- the file places and has under the name: in chunks, in order and without a gap, until the consumer
-- fails. The size of a chunk, or that of the configuration for a size of 0, is not 0.
pub tensor_stream-content :
    {State : Type 0} (disk : Disk) (g : Handle) (consume : Chunk → State → State × Option Status)
    (t : ℕ)
    → disk.maps ≡ true
    → length disk.mapping ≡ g.file.file_size
    → IsPlaced g.file ((reader_of disk g).tensor t)
    → 0 < g.file.file_size
    → g.file.file_size < 2 ^ 64
    → (s : Source) (name : List ℕ) (chunk : ℕ) → find_tensor g.file name ≡ some t
    → 0 < (if chunk == 0 then s.cfg.io_chunk_bytes else chunk)
    → (cs : List Chunk) × ((user : State)
        → tensor_stream (reader_of disk g) consume s name chunk user ≡ feed consume cs user)
      × IsSplit
          (if chunk == 0 then s.cfg.io_chunk_bytes else chunk)
          0
          (content_of disk g ((reader_of disk g).tensor t))
          cs
tensor_stream-content disk g consume t maps size placed some_bytes word =
    tensor_stream-chunks (reader_of disk g) consume t (content_of disk g tensor) whole reads
  where
    tensor : Tensor
    tensor = (reader_of disk g).tensor t

    place : ℕ
    place = g.file.data_base + tensor.data_offset

    whole : length (content_of disk g tensor) ≡ tensor.nbytes
    whole = length-slice place tensor.nbytes disk.mapping (omega (arith, placed.inside, size))

    reads :
        (off n : ℕ)
        → off + n ≤ tensor.nbytes
        → (reader_of disk g).read t off n ≡ ok (slice off n (content_of disk g tensor))
    reads off n inside =
        let same : slice off n (content_of disk g tensor) ≡ slice (place + off) n disk.mapping =
          take-drop-take n off tensor.nbytes (drop place disk.mapping)
            (omega (arith, whole, inside))
          ∙ ap (take n) (drop-drop off place disk.mapping) in
        gguf_read-total disk g tensor off n maps placed some_bytes word (omega (arith, inside))
          (omega (arith, inside))
        ∙ ap ok (sym same)
