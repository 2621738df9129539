-- ===== src/Tests/Read.antt =====
-- Reads of a tensor of six bytes, at the place 4 of a file of ten.
use etha_jhol.Common.{
  zero, suc, ℕ, ◌≡◌, refl, arith, true, false, none, some, List, [], ◌∷◌, ◌++◌, Option, ap,
  get_elem?, map, All,
}
use etha_jhol.Common.Result.{Status, Result, ok}
use etha_jhol.Gguf.File.{find_tensor}
use etha_jhol.Gguf.Hash.{hash_find}
use etha_jhol.Gguf.Index.{find_name, linear_from}
use etha_jhol.TensorSource.Cache.{Source}
use etha_jhol.TensorSource.Stream.{Chunk, tensor_stream}
use etha_jhol.TensorSource.Stream.Chunks.{feed, IsSplit}
use etha_jhol.TensorSource.OpenFile.{reader_of, content_of, tensor_stream-content}
use etha_jhol.TensorSource.Cache.{host}
use etha_jhol.TensorSource.Lease.{Reader}
use etha_jhol.TensorSource.Worker.{
  PrefetchEntry, Async, source_open, wait, blank, work, prefetch_async, asks, works, Reach, here,
  next, Later, now, on,
}
use etha_jhol.TensorSource.Worker.Fifo.{IsWorked, outcome, Reach-IsWorked}
use etha_jhol.TensorSource.Worker.Settles.{work_turns, work_turns-settle, wait-hangs}
use etha_jhol.TensorSource.Worker.Content.{wait-content}
use etha_jhol.Gguf.File.Ranges.{IsPlaced}
use etha_jhol.Gguf.Layout.{Tensor}
use etha_jhol.Gguf.Read.{Disk, Handle, slice, gguf_read}
use etha_jhol.Gguf.Read.Slices.{Reads}
use etha_jhol.Quant.{quant_info}
use etha_jhol.Gguf.Layout.Sizes.{product}

abbrev a_text : List ℕ
a_text = 0 ∷ 1 ∷ 2 ∷ 3 ∷ 4 ∷ 5 ∷ 6 ∷ 7 ∷ 8 ∷ 9 ∷ []

abbrev a_disk : Disk
a_disk = record {
  maps = true;
  mapping = a_text;
  opens_direct = true;
  pread = λ offset size. some (slice offset size a_text);
  fread = λ offset size. some (slice offset size a_text);
}

abbrev a_tensor : Tensor
a_tensor = record { name = []; dims = 2 ∷ []; ggml_type = 0; data_offset = 2; nbytes = 8 }

abbrev a_handle : Handle
a_handle = record {
  file = record {
    file_size = 10;
    data_base = 0;
    tensors = a_tensor ∷ [];
    metas = [];
    tensor_hash = record { slots = []; cap = 0 };
    meta_hash = record { slots = []; cap = 0 };
  };
  direct_io = true;
  mapped = false;
}

a_tensor-IsPlaced : IsPlaced a_handle.file a_tensor
unfolding quant_info product
a_tensor-IsPlaced = record {
  dims_pos = (omega arith, tt);
  exact = (_, refl, omega arith, (2, refl, refl));
  inside = omega arith;
}

-- Without a mapping, through sectors.
abbrev no_map : Disk
no_map = record a_disk { maps = false }

no_map-Reads : Reads no_map a_text
no_map-Reads = record {
  mapping = refl;
  pread = λ offset size got e. (size, omega arith, cc e);
  fread = λ offset size got e. cc e;
}

read_run : (gguf_read no_map a_handle a_tensor 1 3).1 ≡ ok (3 ∷ 4 ∷ 5 ∷ [])
unfolding gguf_read
read_run = refl

abbrev a_source : Source
a_source = record {
  cfg = record {
    host_budget_bytes = 6;
    pinned_budget_bytes = 0;
    device_budget_bytes = 0;
    io_chunk_bytes = 3;
    use_mmap = true;
  };
  entries = [];
  clock = 0;
  next_ticket = 0;
  stats = record {
    lookups = 0;
    hits = 0;
    misses = 0;
    prefetches = 0;
    prefetch_hits = 0;
    bytes_read = 0;
    bytes_resident = 0;
    bytes_device = 0;
    bytes_budget = 0;
    evictions = 0;
  };
}

-- A consumer that keeps what it gets.
abbrev collect : Chunk → List Chunk → List Chunk × Option Status
collect c cs = (cs ++ c ∷ [], none)

a_tensor-found : find_tensor a_handle.file [] ≡ some 0
unfolding find_tensor find_name linear_from hash_find
a_tensor-found = refl

tensor_stream-content_example :
    (cs : List Chunk) × ((user : List Chunk)
      → tensor_stream (reader_of a_disk a_handle) collect a_source [] 0 user ≡ feed collect cs user)
    × IsSplit 3 0 (content_of a_disk a_handle a_tensor) cs
tensor_stream-content_example =
    tensor_stream-content a_disk a_handle collect 0 refl refl a_tensor-IsPlaced (omega arith)
      (omega arith) a_source [] 0 a_tensor-found (omega arith)

abbrev a_file : Reader
a_file = reader_of a_disk a_handle

-- A prefetch of the tensor, and the worker as far as the store that makes the entry ready, and to its end.
abbrev asked_once : ℕ → Async
asked_once io_workers =
    (prefetch_async a_file [] host (source_open (some (a_source.cfg, io_workers)))).0

abbrev worked : ℕ → Async
worked zero = asked_once 1
worked (suc n) = work a_file (worked n)

abbrev an_entry : PrefetchEntry
an_entry = record (blank [] host) {
  data_bytes = some (2 ∷ 3 ∷ 4 ∷ 5 ∷ 6 ∷ 7 ∷ 8 ∷ 9 ∷ []);
  bytes = 8;
  ready = true;
}

asked_once-Reach :
    (io_workers : ℕ) → Reach a_file (some (a_source.cfg, io_workers)) (asked_once io_workers)
asked_once-Reach io_workers = next here (asks _ [] host)

worked-Reach : (n : ℕ) → Reach a_file (some (a_source.cfg, 1)) (worked n)
worked-Reach zero = asked_once-Reach 1
worked-Reach (suc n) = next (worked-Reach n) (works _)

worked-Later : Later a_file (worked 5) (worked 7)
worked-Later = on (on now (works _)) (works _)

ready_run : (worked 5).entries ≡ an_entry ∷ []
unfolding prefetch_async source_open work gguf_read find_tensor find_name linear_from hash_find
ready_run = refl

served_run : (worked 7).entries ≡ an_entry ∷ []
unfolding prefetch_async source_open work gguf_read find_tensor find_name linear_from hash_find
served_run = refl

abbrev same_status : Result (Unit {0})
same_status = ok tt

wait-content_example :
    (same_status ≡ ok tt)
    × (an_entry.data_bytes ≡ some (content_of a_disk a_handle a_tensor))
    × (an_entry.bytes ≡ a_tensor.nbytes)
unfolding wait
wait-content_example =
    wait-content a_disk a_handle a_source.cfg 1 refl (omega arith) (omega arith) (omega arith)
      (worked-Reach 5) worked-Later 0 an_entry an_entry same_status 0
      (ap (λ es. get_elem? es 0) ready_run) (ap (λ es. get_elem? es 0) served_run) refl
      a_tensor-found a_tensor-IsPlaced

Reach-IsWorked_example : IsWorked a_file (worked 4)
Reach-IsWorked_example = Reach-IsWorked a_file a_source.cfg 1 (omega arith) (worked-Reach 4)

work_turns-settle_example :
    (n : ℕ) × ((work_turns a_file n (asked_once 1)).entries
      ≡ map (outcome a_file) (asked_once 1).asked)
    × All (λ e. e.ready ≡ true) (work_turns a_file n (asked_once 1)).entries
unfolding prefetch_async source_open
work_turns-settle_example =
    work_turns-settle a_file a_source.cfg 1 (omega arith) (asked_once-Reach 1) (λ e. cc) refl

wait-hangs_example : All (λ e. (later : PrefetchEntry) → wait e later ≡ none) (asked_once 0).entries
wait-hangs_example = wait-hangs a_file a_source.cfg (asked_once-Reach 0)
