-- ===== src/TensorSource/Cache.antt =====
-- The entries of the cache: what they take, how one is found, and which one is evicted.
use etha_jhol.Common.{
  ℕ, zero, suc, ◌+◌, ◌%◌, Bool, ◌&&◌, ◌||◌, Option, none, some, List, [], ◌∷◌, ltb, leb, ◌==◌,
  if◌then◌else◌, length,
}
use etha_jhol.Gguf.Layout.{sub64}
use etha_jhol.Quant.{u64, u64_max}

-- `VG_Tier`
pub data Tier : Type 0 where
  storage host pinned device : Tier

abbrev tier_code : Tier → ℕ
tier_code storage = 0
tier_code host = 1
tier_code pinned = 2
tier_code device = 3

abbrev pub same_tier : Tier → Tier → Bool
same_tier a b = tier_code a == tier_code b

-- `VG_CacheEntry`: the tensor is told by its index in the file, and `data` by the bytes in the buffer.
pub record Entry : Type 0 where
  pub tensor : ℕ
  pub data_bytes : List ℕ
  pub bytes : ℕ
  pub refs : ℕ
  pub age : ℕ
  pub ticket : ℕ
  pub tier : Tier
  pub owns : Bool

-- `VG_TensorSourceConfig`, as far as the leases read it.
pub record Config : Type 0 where
  pub host_budget_bytes : ℕ
  pub pinned_budget_bytes : ℕ
  pub device_budget_bytes : ℕ
  pub io_chunk_bytes : ℕ
  pub use_mmap : Bool

-- `VG_TensorSourceStats`
pub record Stats : Type 0 where
  pub lookups : ℕ
  pub hits : ℕ
  pub misses : ℕ
  pub prefetches : ℕ
  pub prefetch_hits : ℕ
  pub bytes_read : ℕ
  pub bytes_resident : ℕ
  pub bytes_device : ℕ
  pub bytes_budget : ℕ
  pub evictions : ℕ

-- `VG_TensorSource`: the fields under the lock, without the queue of the worker.
pub record Source : Type 0 where
  pub cfg : Config
  pub entries : List Entry
  pub clock : ℕ
  pub next_ticket : ℕ
  pub stats : Stats

-- `resident_bytes` over the entries.
unfoldable pub resident : List Entry → ℕ
resident [] = 0
resident (e ∷ es) = let rest = resident es in if e.owns then (e.bytes + rest) % u64 else rest

abbrev pub resident_bytes : Source → ℕ
resident_bytes s = resident s.entries

-- The entries without the one in slot `i`.
abbrev pub without : List Entry → ℕ → List Entry
without [] i = []
without (e ∷ es) zero = es
without (e ∷ es) (suc i) = e ∷ without es i

-- `remove_entry`
unfoldable pub remove_entry : Source → ℕ → Source
remove_entry s i = if leb (length s.entries) i then s else record s {
  entries = without s.entries i;
  stats = record s.stats { evictions = (s.stats.evictions + 1) % u64 };
}

-- `find_entry`: the slot and the entry.
unfoldable pub find_entry : List Entry → ℕ → Tier → Option (ℕ × Entry)
find_entry [] t tier = none
find_entry (e ∷ es) t tier =
    let rest : Option (ℕ × Entry) = elim (find_entry es t tier) [
      | none ↦ none
      | some (i, x) ↦ some (suc i, x)
    ] in
    if (e.tensor == t) && same_tier e.tier tier then some (0, e) else rest

-- The test of the loop over the entries in `evict_for`.
abbrev pub is_older : Entry → ℕ → Bool
is_older e age = e.owns && (e.refs == 0) && ltb e.age age

-- That loop, from slot `i` on: the victim so far, and its age.
unfoldable pub victim_from : ℕ → List Entry → Option ℕ × ℕ → Option ℕ × ℕ
victim_from i [] best = best
victim_from i (e ∷ es) best =
    victim_from (suc i) es (if is_older e best.1 then (some i, e.age) else best)

abbrev pub victim : List Entry → Option ℕ
victim es = (victim_from 0 es (none, u64_max)).0

-- The condition of the outer loop of `evict_for`.
abbrev pub over_budget : ℕ → ℕ → List Entry → Bool
over_budget budget need es =
    ltb budget (resident es) || (ltb 0 need && ltb (sub64 budget need) (resident es))

-- The slot that the next round evicts, or `none` where the loop ends.
unfoldable pub next_victim : ℕ → ℕ → List Entry → Option ℕ
unfolding victim_from
next_victim budget need es = if over_budget budget need es then victim es else none

-- The outer loop, with one round of fuel for each entry.
unfoldable pub evict_rounds : ℕ → ℕ → Source → Source
unfolding next_victim remove_entry
evict_rounds zero need s = s
evict_rounds (suc fuel) need s = elim (next_victim s.cfg.host_budget_bytes need s.entries) [
  | none ↦ s
  | some i ↦ evict_rounds fuel need (remove_entry s i)
]

-- `evict_for`
unfoldable pub evict_for : Source → ℕ → Source
unfolding evict_rounds
evict_for s need =
    if s.cfg.host_budget_bytes == 0 then s else evict_rounds (length s.entries) need s
