-- ===== src/TensorSource/Lease.antt =====
-- `vg_tensor_acquire` and `vg_tensor_release`.
use etha_jhol.Common.{
  ℕ, suc, ◌+◌, ◌-◌, ◌%◌, Bool, true, ◌&&◌, Option, none, some, List, [], ◌∷◌, ◌++◌, ltb, leb, ◌==◌,
  if◌then◌else◌, set,
}
use etha_jhol.Common.Result.{invalid, io, no_memory, Result, ok, fail}
use etha_jhol.Gguf.Layout.{Tensor, sub64}
use etha_jhol.Quant.{u64}
use etha_jhol.TensorSource.Cache.{
  Tier, storage, pinned, device, same_tier, Entry, Config, Stats, Source, resident_bytes,
  find_entry, evict_for,
}

-- What the cache asks of the open file: its tensors by name and by index, the size of its mapping, and
-- reads. A tensor stands for its index.
pub record Reader : Type 0 where
  pub count : ℕ
  pub tensor : ℕ → Tensor
  pub find : List ℕ → Option ℕ
  pub data_base : ℕ
  pub map_size : Result ℕ
  pub read : (t off n : ℕ) → Result (List ℕ)

-- What the pointer of a lease shows: a buffer, with its bytes, or the mapping from an offset on.
pub data Place : Type 0 where
  buffer : List ℕ → Place
  mapping : ℕ → Place

-- `VG_TensorLease`
pub record Lease : Type 0 where
  pub tensor : ℕ
  pub place : Place
  pub size : ℕ
  pub tier : Tier
  pub ticket : ℕ

-- The counters of the statistics, as changes to the source.
abbrev pub counted : (Stats → Stats) → Source → Source
counted f s = record s { stats = f s.stats }

abbrev pub looked_up : Source → Source
looked_up = counted λ st. record st { lookups = (st.lookups + 1) % u64 }

abbrev hit : Source → Source
hit = counted λ st. record st { hits = (st.hits + 1) % u64 }

abbrev pub missed : Source → Source
missed = counted λ st. record st { misses = (st.misses + 1) % u64 }

-- A tensor that is in the cache: slot `i` holds `e`.
unfoldable pub acquire_hit : Source → ℕ → ℕ → Entry → Source × Result Lease
acquire_hit s t i e =
    let clock = (s.clock + 1) % u64 in
    (
      hit (record s {
        clock = clock;
        entries = set s.entries i (record e { refs = (e.refs + 1) % u64; age = clock });
      }),
      ok (record {
        tensor = t;
        place = buffer e.data_bytes;
        size = e.bytes;
        tier = e.tier;
        ticket = suc i;
      }),
    )

abbrev pub budget_of : Config → Tier → ℕ
budget_of cfg tier =
    if same_tier tier pinned then cfg.pinned_budget_bytes else cfg.host_budget_bytes

abbrev pub over_device : Source → Tier → ℕ → Bool
over_device s tier n =
    same_tier tier device
    && ltb 0 s.cfg.device_budget_bytes
    && ltb s.cfg.device_budget_bytes ((s.stats.bytes_device + n) % u64)

-- The statistics behind a read of `n` bytes.
abbrev pub account : Tier → ℕ → ℕ → Source → Source
account tier n budget s =
    counted
      (λ st. record st {
        bytes_resident = resident_bytes s;
        bytes_budget = budget;
        bytes_device =
            if same_tier tier device then (st.bytes_device + n) % u64 else st.bytes_device;
        bytes_read = (st.bytes_read + n) % u64;
      })
      s

-- The entry of the bytes that a miss has read, and its lease.
abbrev pub new_entry : Source → ℕ → Tier → List ℕ → ℕ → Entry
new_entry s t tier bytes n = record {
  tensor = t;
  data_bytes = bytes;
  bytes = n;
  refs = 1;
  age = (s.clock + 1) % u64;
  ticket = (s.next_ticket + 1) % u64;
  tier = tier;
  owns = true;
}

abbrev pub lease_of : Entry → Lease
lease_of e = record {
  tensor = e.tensor;
  place = buffer e.data_bytes;
  size = e.bytes;
  tier = e.tier;
  ticket = e.ticket;
}

-- The bytes that a miss has read go into a new entry.
unfoldable pub keep : Source → ℕ → Tier → List ℕ → ℕ → ℕ → Source × Result Lease
keep s t tier bytes n budget =
    let s₁ = evict_for s n in
    let e = new_entry s₁ t tier bytes n in
    (
      account tier n budget
          (record s₁ { entries = s₁.entries ++ e ∷ []; clock = e.age; next_ticket = e.ticket }),
      ok (lease_of e),
    )

module _ (file : Reader) where
  abbrev pub lease_of_map : ℕ → Lease
  lease_of_map t = record {
    tensor = t;
    place = mapping ((file.data_base + (file.tensor t).data_offset) % u64);
    size = (file.tensor t).nbytes;
    tier = storage;
    ticket = 0;
  }

  -- The lease of a tensor in the mapping, where there is one.
  unfoldable pub lease_at : ℕ → Result ℕ → Option Lease
  lease_at t (fail st) = none
  lease_at t (ok size) =
      if leb (file.tensor t).data_offset (sub64 size file.data_base)
      then some (lease_of_map t)
      else none

  abbrev pub mapped_lease : ℕ → Option Lease
  mapped_lease t = lease_at t file.map_size

  -- A tensor that is not in the cache, once it is read.
  unfoldable pub acquire_read : Source → ℕ → Tier → List ℕ → Source × Result Lease
  unfolding keep
  acquire_read s t tier bytes =
      let n = (file.tensor t).nbytes in
      let budget = budget_of s.cfg tier in
      if over_device s tier n
      then (s, fail no_memory)
      else if ltb 0 budget && leb n budget
      then keep s t tier bytes n budget
      else (
        account tier n budget s,
        ok (record { tensor = t; place = buffer bytes; size = n; tier = tier; ticket = 0 }),
      )

  unfoldable pub acquire_miss : Source → ℕ → Tier → Source × Result Lease
  unfolding lease_at acquire_read
  acquire_miss s t tier =
      if same_tier tier storage && s.cfg.use_mmap
      then (s, elim (mapped_lease t) [ none ↦ fail io | some lease ↦ ok lease ])
      else elim (file.read t 0 (file.tensor t).nbytes) [
        | fail st ↦ (s, fail st)
        | ok bytes ↦ acquire_read s t tier bytes
      ]

  -- The lookup in the cache, and what follows.
  unfoldable pub acquire_cached : Source → ℕ → Tier → Source × Result Lease
  unfolding acquire_hit acquire_miss
  acquire_cached s t tier = elim (find_entry s.entries t tier) [
    | some (i, e) ↦ acquire_hit (looked_up s) t i e
    | none ↦ acquire_miss (missed (looked_up s)) t tier
  ]

  -- The tensor with index `t`, behind the lookup of its name.
  unfoldable pub acquire_tensor : Source → ℕ → Tier → Source × Result Lease
  unfolding lease_at acquire_cached
  acquire_tensor s t tier =
      if same_tier tier storage && s.cfg.use_mmap
      then elim (mapped_lease t) [
        | some lease ↦ (hit (looked_up s), ok lease)
        | none ↦ acquire_cached (looked_up s) t tier
      ]
      else acquire_cached s t tier

  -- `vg_tensor_acquire`
  unfoldable pub acquire : Source → List ℕ → Tier → Source × Result Lease
  unfolding acquire_tensor
  acquire s name tier = elim (file.find name) [
    | none ↦ (s, fail invalid)
    | some t ↦ acquire_tensor s t tier
  ]

-- The loop of `vg_tensor_release` over the entries.
unfoldable pub release_in : Lease → List Entry → List Entry
release_in lease [] = []
release_in lease (e ∷ es) =
    let rest = release_in lease es in
    if (e.ticket == lease.ticket) && (e.tensor == lease.tensor)
    then record e { refs = e.refs - 1 } ∷ es
    else e ∷ rest

-- `vg_tensor_release`: a buffer without a ticket is freed, and nothing else changes.
unfoldable pub release : Source → Lease → Source
unfolding release_in
release s lease = if lease.ticket == 0 then s else record s { entries = release_in lease s.entries }
