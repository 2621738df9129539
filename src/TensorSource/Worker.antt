-- ===== src/TensorSource/Worker.antt =====
-- The thread behind `vg_tensor_prefetch_async`: `io_worker` with its queue, `vg_tensor_wait`, and the part of
-- `vg_tensor_source_close` that ends it. An entry of a caller is told by its number, in the order in which
-- callers handed them in. The stores of the worker into an entry, which are made outside the lock, are steps of
-- their own, seen in the order of the program. Failing allocations are left out.
pub mod Fifo
pub mod Settles
mod Ready
pub mod Content
use etha_jhol.Common.{
  ℕ, zero, suc, ◌*◌, Bool, true, false, Option, none, some, List, [], ◌∷◌, ◌++◌, ◌==◌, ◌≡◌,
  if◌then◌else◌, length, get_elem?, set,
}
use etha_jhol.Common.Result.{io, Result, ok, fail}
use etha_jhol.Gguf.Layout.{Tensor}
use etha_jhol.TensorSource.Cache.{Tier, Config, Stats, Source}
use etha_jhol.TensorSource.Lease.{Reader}
use etha_jhol.TensorSource.Prefetch.{prefetch}

-- `VG_PrefetchEntry`; `none` is a NULL pointer.
pub record PrefetchEntry : Type 0 where
  pub name : List ℕ
  pub tier : Tier
  pub data_bytes : Option (List ℕ)
  pub bytes : ℕ
  pub ready : Bool
  pub error : Bool

-- `VG_IORequest`, as far as it outlives a round of the worker.
pub record Request : Type 0 where
  pub name : List ℕ
  pub tier : Tier
  pub io_entry : ℕ

-- A store into an entry, which the worker makes outside the lock.
pub data Write : Type 0 where
  put_data : List ℕ → Write
  put_bytes : ℕ → Write
  set_ready set_error clear_error : Write

-- Where the worker stands between two sections under the lock or stores outside it. `absent` is a source without
-- a thread; a worker that found no request looks at `io_running` next; one that has looked a request's tensor
-- up and read it writes the request's entry, with the stores that are made and those that are left.
pub data Worker : Type 0 where
  absent looking waiting ended : Worker
  serving : Request → Worker
  writing : Request → List Write → List Write → Worker

-- The test of `io_thread`.
abbrev pub has_thread : Worker → Bool
has_thread absent = false
has_thread looking = true
has_thread waiting = true
has_thread ended = true
has_thread (serving req) = true
has_thread (writing req done left) = true

-- `VG_TensorSource` with its thread and the callers' entries; `asked` are the requests so far.
pub record Async : Type 0 where
  pub source : Source
  pub queue : List Request
  pub running : Bool
  pub worker : Worker
  pub entries : List PrefetchEntry
  pub asked : List Request

-- `vg_tensor_source_open`: the default configuration is that of a NULL pointer.
abbrev default_config : Config
default_config = record {
  host_budget_bytes = 512 * 1024 * 1024;
  pinned_budget_bytes = 0;
  device_budget_bytes = 0;
  io_chunk_bytes = 4 * 1024 * 1024;
  use_mmap = true;
}

abbrev no_stats : Stats
no_stats = record {
  lookups = 0;
  hits = 0;
  misses = 0;
  prefetches = 0;
  prefetch_hits = 0;
  bytes_read = 0;
  bytes_resident = 0;
  bytes_device = 0;
  bytes_budget = 0;
  evictions = 0;
}

abbrev opened : Config → ℕ → Async
opened cfg io_workers = record {
  source = record {
    cfg = record cfg {
      io_chunk_bytes = if cfg.io_chunk_bytes == 0 then 4 * 1024 * 1024 else cfg.io_chunk_bytes;
    };
    entries = [];
    clock = 0;
    next_ticket = 0;
    stats = record no_stats { bytes_budget = cfg.host_budget_bytes };
  };
  queue = [];
  running = if io_workers == 0 then false else true;
  worker = if io_workers == 0 then absent else looking;
  entries = [];
  asked = [];
}

unfoldable pub source_open : Option (Config × ℕ) → Async
source_open none = opened default_config 0
source_open (some (cfg, io_workers)) = opened cfg io_workers

-- An entry as `vg_tensor_prefetch_async` sets it up.
abbrev pub blank : List ℕ → Tier → PrefetchEntry
blank name tier = record {
  name = name;
  tier = tier;
  data_bytes = none;
  bytes = 0;
  ready = false;
  error = false;
}

unfoldable pub write_entry : Write → PrefetchEntry → PrefetchEntry
write_entry (put_data got) e = record e { data_bytes = some got }
write_entry (put_bytes n) e = record e { bytes = n }
write_entry set_ready e = record e { ready = true }
write_entry set_error e = record e { error = true }
write_entry clear_error e = record e { error = false }

unfoldable pub write_all : List Write → PrefetchEntry → PrefetchEntry
unfolding write_entry
write_all [] e = e
write_all (w ∷ ws) e = write_all ws (write_entry w e)

-- The stores into the entry of a request that fails.
abbrev pub failing : List Write
failing = set_error ∷ set_ready ∷ []

-- The stores behind the read of the tensor, in their order.
unfoldable pub behind_read : Result (List ℕ) → ℕ → List Write
behind_read (fail st) n = failing
behind_read (ok got) n = put_data got ∷ put_bytes n ∷ set_ready ∷ clear_error ∷ []

unfoldable pub put : ℕ → Write → List PrefetchEntry → List PrefetchEntry
unfolding write_entry
put i w es = elim (get_elem? es i) [ none ↦ es | some e ↦ set es i (write_entry w e) ]

-- What the callers see of `vg_tensor_wait`, which finds the entry `e` under the lock, and reads its error outside
-- it, where the entry is `later`; `none` where it goes on waiting.
unfoldable pub wait : PrefetchEntry → PrefetchEntry → Option (Result (Unit {0}))
wait e later = if e.ready then some (if later.error then fail io else ok tt) else none

-- `vg_tensor_source_close`, in front of the join.
unfoldable pub stop_worker : Async → Async
stop_worker s = if has_thread s.worker then record s { running = false } else s

-- The first section of a round of `io_worker`.
unfoldable pub dequeue : Async → Async
dequeue s = elim s.queue [
  | [] ↦ record s { worker = waiting }
  | req ∷ queue ↦ record s { queue = queue; worker = serving req }
]

module _ (file : Reader) where
  -- The stores of a round of `io_worker` into the entry of its request.
  unfoldable pub writes_of : List ℕ → List Write
  unfolding behind_read
  writes_of name = elim (file.find name) [
    | none ↦ failing
    | some t ↦ behind_read (file.read t 0 (file.tensor t).nbytes) (file.tensor t).nbytes
  ]

  -- The entry behind all of them.
  unfoldable pub fill : List ℕ → PrefetchEntry → PrefetchEntry
  unfolding writes_of write_all
  fill name e = write_all (writes_of name) e

  -- The worker's next section or store.
  unfoldable pub work : Async → Async
  unfolding dequeue writes_of put
  work s = elim s.worker [
    | absent ↦ s
    | ended ↦ s
    | looking ↦ dequeue s
    | waiting ↦ record s { worker = if s.running then looking else ended }
    | serving req ↦ record s { worker = writing req [] (writes_of req.name) }
    | writing req done left ↦ elim left [
      | [] ↦ record s { worker = looking }
      | w ∷ more ↦ record s {
        worker = writing req (done ++ w ∷ []) more;
        entries = put req.io_entry w s.entries;
      }
    ]
  ]

  -- The end of the queue takes a request for a new entry.
  unfoldable pub enqueue : Request → Async → Async
  enqueue req s = record s {
    queue = s.queue ++ req ∷ [];
    entries = s.entries ++ blank req.name req.tier ∷ [];
    asked = s.asked ++ req ∷ [];
  }

  -- `vg_tensor_prefetch_async`
  unfoldable pub prefetch_async : List ℕ → Tier → Async → Async × Result (Unit {0})
  unfolding enqueue prefetch
  prefetch_async name tier s =
      let req : Request = record { name = name; tier = tier; io_entry = length s.entries } in
      let (source, r) = prefetch file s.source (name ∷ []) tier in
      if has_thread s.worker then (enqueue req s, ok tt) else (
        record s {
          source = source;
          entries = s.entries ++ blank name tier ∷ [];
          asked = s.asked ++ req ∷ [];
        },
        r,
      )

  -- A section of a caller or of the worker, or a store of the worker.
  pub data Turn : Async → Async → Type 0 where
    asks : (s : Async) (name : List ℕ) (tier : Tier) → Turn s (prefetch_async name tier s).0
    works : (s : Async) → Turn s (work s)
    closes : (s : Async) → Turn s (stop_worker s)

-- What the callers and the worker reach from a source that was opened, in any interleaving.
pub data Reach (file : Reader) (cfg : Option (Config × ℕ)) : Async → Type 0 where
  here : Reach file cfg (source_open cfg)
  next : {s t : Async} → Reach file cfg s → Turn file s t → Reach file cfg t

-- What they lead on to from there.
pub data Later (file : Reader) (s : Async) : Async → Type 0 where
  now : Later file s s
  on : {t u : Async} → Later file s t → Turn file t u → Later file s u
