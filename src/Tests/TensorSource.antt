-- ===== src/Tests/TensorSource.antt =====
-- A file of two tensors behind a cache of six bytes, and a stream of it.
use etha_jhol.Common.{
  ℕ, ◌+◌, ◌≤◌, ◌≡◌, ◌⊎◌, refl, arith, true, false, Option, none, some, List, [], ◌∷◌, ◌++◌, set,
  All, if◌then◌else◌, list_eq,
}
use etha_jhol.Common.Result.{Status, ok, fail, io}
use etha_jhol.Gguf.Layout.{Tensor}
use etha_jhol.Gguf.Read.{slice}
use etha_jhol.TensorSource.Cache.{host, Entry, Stats, Source, resident, evict_for, resident}
use etha_jhol.TensorSource.Lease.{Reader, Lease, acquire, release, acquire_hit}
use etha_jhol.TensorSource.Budget.{referenced, IsHeld, evict_for-room}
use etha_jhol.TensorSource.Transparent.{IsCache, Shows, acquire-IsCache}
use etha_jhol.TensorSource.Tickets.{held_again, acquire_hit-leaks}
use etha_jhol.TensorSource.Stream.{Chunk, tensor_stream}

abbrev content : List ℕ
content = 10 ∷ 11 ∷ 12 ∷ 13 ∷ 14 ∷ []

abbrev a_tensor : Tensor
a_tensor = record { name = b'a' ∷ []; dims = 5 ∷ []; ggml_type = 0; data_offset = 0; nbytes = 5 }

-- Every tensor has the same five bytes.
abbrev a_reader : Reader
a_reader = record {
  count = 2;
  tensor = λ t. a_tensor;
  find = λ name. if list_eq name (b'a' ∷ []) then some 0 else some 1;
  data_base = 0;
  map_size = fail io;
  read = λ t off n. ok (slice off n content);
}

abbrev no_stats : Stats
no_stats = record {
  lookups = 0;
  hits = 0;
  misses = 0;
  prefetches = 0;
  prefetch_hits = 0;
  bytes_read = 0;
  bytes_resident = 0;
  bytes_device = 0;
  bytes_budget = 0;
  evictions = 0;
}

abbrev entry_of : ℕ → ℕ → ℕ → ℕ → Entry
entry_of t refs age ticket = record {
  tensor = t;
  data_bytes = content;
  bytes = 5;
  refs = refs;
  age = age;
  ticket = ticket;
  tier = host;
  owns = true;
}

abbrev a_source : List Entry → ℕ → Source
a_source es tickets = record {
  cfg = record {
    host_budget_bytes = 6;
    pinned_budget_bytes = 0;
    device_budget_bytes = 0;
    io_chunk_bytes = 2;
    use_mmap = false;
  };
  entries = es;
  clock = 5;
  next_ticket = tickets;
  stats = no_stats;
}

evict_for-room_example :
    (referenced (evict_for (a_source (entry_of 0 0 3 1 ∷ []) 1) 5).entries
      ≡ referenced (a_source (entry_of 0 0 3 1 ∷ []) 1).entries)
    × ((resident (evict_for (a_source (entry_of 0 0 3 1 ∷ []) 1) 5).entries + 5 ≤ 6)
        ⊎ All IsHeld (evict_for (a_source (entry_of 0 0 3 1 ∷ []) 1) 5).entries)
evict_for-room_example =
    evict_for-room (a_source (entry_of 0 0 3 1 ∷ []) 1) 5 (omega arith) (omega arith) (omega arith)

-- The unused entry goes.
eviction_run : (evict_for (a_source (entry_of 0 0 3 1 ∷ []) 1) 5).entries ≡ []
unfolding evict_for resident
eviction_run = refl

acquire-IsCache_example :
    IsCache a_reader (acquire a_reader (a_source (entry_of 0 1 3 1 ∷ []) 1) (b'a' ∷ []) host).0
    × ((lease : Lease)
        → (acquire a_reader (a_source (entry_of 0 1 3 1 ∷ []) 1) (b'a' ∷ []) host).1 ≡ ok lease
        → (t : ℕ) × (a_reader.find (b'a' ∷ []) ≡ some t) × Shows a_reader t lease)
acquire-IsCache_example =
    acquire-IsCache a_reader (a_source (entry_of 0 1 3 1 ∷ []) 1) (b'a' ∷ []) host
      ((refl, refl), tt)

-- The entry in slot 0 has the ticket 7, the evictions before it being gone.
acquire_hit-leaks_example :
    (lease : Lease) × ((acquire_hit (a_source (entry_of 0 0 3 7 ∷ []) 7) 0 0 (entry_of 0 0 3 7)).1
      ≡ ok lease)
    × ((release
          (acquire_hit (a_source (entry_of 0 0 3 7 ∷ []) 7) 0 0 (entry_of 0 0 3 7)).0
          lease).entries
        ≡ set
            (entry_of 0 0 3 7 ∷ [])
            0
            (held_again (a_source (entry_of 0 0 3 7 ∷ []) 7) (entry_of 0 0 3 7)))
acquire_hit-leaks_example =
    acquire_hit-leaks (a_source (entry_of 0 0 3 7 ∷ []) 7) 0 0 (entry_of 0 0 3 7) refl (refl, tt)

-- A consumer that keeps what it gets.
abbrev collect : Chunk → List Chunk → List Chunk × Option Status
collect c cs = (cs ++ c ∷ [], none)

stream_run :
    (tensor_stream a_reader collect (a_source [] 0) (b'a' ∷ []) 0 []).0
    ≡ record { bytes = 10 ∷ 11 ∷ []; offset = 0 }
      ∷ record { bytes = 12 ∷ 13 ∷ []; offset = 2 }
      ∷ record { bytes = 14 ∷ []; offset = 4 }
      ∷ []
unfolding tensor_stream
stream_run = refl
