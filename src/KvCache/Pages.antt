-- ===== src/KvCache/Pages.antt =====
-- The pages of src/kv_cache.c and the sequences that point to them, without a spill directory. A pointer to a
-- page is the array that it was taken from and an index there; growing the array gives a new one. `none` is an
-- access through a pointer into an array that is no longer there, or behind its end. Of the tier of a page
-- only what the code tests, the device or not, is kept. Failing allocations are left out.
mod Size
mod NewPage
pub mod Moved
pub mod Shared
pub mod System
use etha_jhol.Common.{
  ℕ, zero, suc, ◌+◌, ◌-◌, ◌*◌, ◌/◌, ◌%◌, ◌^◌, Bool, true, false, ◌&&◌, ◌||◌, Option, none, some,
  List, [], ◌∷◌, ◌++◌, length, get_elem?, set, take, drop, ltb, leb, ◌==◌, if◌then◌else◌,
}
use etha_jhol.Common.Result.{Result, fail, ok, Status, invalid, range, no_memory}
use etha_jhol.Quant.{u64, u64_max}

-- `VG_KVConfig`.
pub record Config : Type 0 where
  pub page_tokens : ℕ
  pub n_layers : ℕ
  pub kv_heads : ℕ
  pub head_dim : ℕ
  pub element_bytes : ℕ
  pub host_budget_bytes : ℕ
  pub device_budget_bytes : ℕ
  pub max_pages : ℕ

-- `VG_Page` without its contents.
pub record Page : Type 0 where
  pub bytes : ℕ
  pub refs : ℕ
  pub age : ℕ
  pub on_device : Bool

-- `VG_KVStore`; `array` names the allocation behind `pages`.
pub record Store : Type 0 where
  pub cfg : Config
  pub pages : List Page
  pub capacity : ℕ
  pub array : ℕ
  pub clock : ℕ
  pub page_allocs : ℕ
  pub page_hits : ℕ
  pub page_evictions : ℕ
  pub host_bytes : ℕ
  pub device_bytes : ℕ

-- A pointer to a page: an array and an index.
abbrev pub PagePtr : Type 0
PagePtr = ℕ × ℕ

-- `VG_KVSequence`, whose arrays grow as needed.
pub record Sequence : Type 0 where
  pub tokens : List ℕ
  pub pages : List PagePtr

unfoldable pub page_bytes : Config → ℕ
page_bytes c =
    c.n_layers * c.kv_heads % u64 * c.head_dim % u64 * c.element_bytes % u64 * c.page_tokens % u64

-- `vg_kv_open`, with no pages yet; `array` is what stands for the NULL pointer.
unfoldable pub kv_open : Config → ℕ → Result Store
unfolding page_bytes
kv_open c array =
    if (c.page_tokens == 0)
      || ((c.n_layers == 0) || ((c.kv_heads == 0) || ((c.head_dim == 0) || (c.element_bytes == 0))))
    then fail invalid
    else if page_bytes c == 0
    then fail range
    else ok (record {
      cfg = record c { max_pages = if c.max_pages == 0 then 16384 else c.max_pages };
      pages = [];
      capacity = 0;
      array = array;
      clock = 0;
      page_allocs = 0;
      page_hits = 0;
      page_evictions = 0;
      host_bytes = 0;
      device_bytes = 0;
    })

-- The page behind a pointer, and writing to it.
unfoldable pub load : Store → PagePtr → Option Page
load s (array, i) = if array == s.array then get_elem? s.pages i else none

unfoldable pub store_page : Store → ℕ → Page → Store
store_page s i p = record s { pages = set s.pages i p }

-- The scan of `evict_pages` for the oldest page with no reference.
unfoldable pub victim_from : ℕ → Option ℕ → ℕ → List Page → Option ℕ
victim_from i best age [] = best
victim_from i best age (p ∷ ps) =
    victim_from (suc i) (if (p.refs == 0) && ltb p.age age then some i else best)
      (if (p.refs == 0) && ltb p.age age then p.age else age) ps

-- A round of `evict_pages`: the pages behind the victim move down by one.
unfoldable pub evict_at : Store → ℕ → Store
evict_at s i = elim (get_elem? s.pages i) [
  | none ↦ s
  | some p ↦ record s {
    pages = take i s.pages ++ drop (i + 1) s.pages;
    host_bytes = (s.host_bytes + u64 - p.bytes) % u64;
    device_bytes = (if p.on_device then (s.device_bytes + u64 - p.bytes) % u64 else s.device_bytes);
    page_evictions = (s.page_evictions + 1) % u64;
  }
]

-- The loop, with `fuel` rounds; a round takes a page.
unfoldable pub evict_from : ℕ → Store → Store
unfolding victim_from evict_at
evict_from zero s = s
evict_from (suc fuel) s = elim (ltb s.cfg.host_budget_bytes s.host_bytes) [
  | false ↦ s
  | true ↦ (elim (victim_from 0 none u64_max s.pages) [
    | none ↦ s
    | some i ↦ evict_from fuel (evict_at s i)
  ])
]

-- `evict_pages`
unfoldable pub evict_pages : Store → Store
unfolding evict_from
evict_pages s = if s.cfg.host_budget_bytes == 0 then s else evict_from (length s.pages) s

-- `realloc` of the array of pages: the name of the array that it gives.
module _ (realloc : ℕ → ℕ) where
  unfoldable pub grow_pages : Store → Store
  grow_pages s =
      if length s.pages == s.capacity
      then record s {
        capacity = if s.capacity == 0 then 64 else s.capacity * 2;
        array = realloc s.array;
      }
      else s

  unfoldable pub push_page : Bool → ℕ → Store → Store
  push_page on_device bytes s =
      let page : Page = record {
        bytes = bytes;
        refs = 1;
        age = (s.clock + 1) % u64;
        on_device = on_device;
      } in
      record s {
        pages = s.pages ++ page ∷ [];
        clock = (s.clock + 1) % u64;
        page_allocs = (s.page_allocs + 1) % u64;
        host_bytes = (s.host_bytes + bytes) % u64;
        device_bytes = (if on_device then (s.device_bytes + bytes) % u64 else s.device_bytes);
      }

  -- `new_page`
  unfoldable pub new_page : Bool → Store → Option PagePtr × Store
  unfolding grow_pages push_page evict_pages page_bytes
  new_page on_device s =
      let bytes = page_bytes s.cfg in
      let s' = evict_pages s in
      if bytes == 0
      then (none, s)
      else if on_device
          && (ltb 0 s'.cfg.device_budget_bytes
              && ltb s'.cfg.device_budget_bytes ((s'.device_bytes + bytes) % u64))
      then (none, s')
      else (
        some ((grow_pages s').array, length s'.pages),
        push_page on_device bytes (grow_pages s'),
      )

  -- `vg_kv_sequence_append`
  unfoldable pub append : Sequence → ℕ → Store → Result Sequence × Store
  unfolding new_page
  append q token s =
      if leb (length q.pages) (length q.tokens / s.cfg.page_tokens)
      then (if leb s.cfg.max_pages (length q.pages)
          then (fail range, s)
          else let made = new_page false s in
            (
              elim made.0 [
                | none ↦ fail no_memory
                | some p ↦
                    ok (record { tokens = q.tokens ++ token ∷ []; pages = q.pages ++ p ∷ [] })
              ],
              made.1,
            ))
      else (ok (record q { tokens = q.tokens ++ token ∷ [] }), s)

-- `page_retain`
unfoldable pub page_retain : PagePtr → Store → Option Store
unfolding load store_page
page_retain ptr s = elim (load s ptr) [
  | none ↦ none
  | some p ↦ some (store_page s ptr.1 (record p { refs = (p.refs + 1) % 2 ^ 32 }))
]

-- `page_drop`
unfoldable pub page_drop : PagePtr → Store → Option Store
unfolding load store_page
page_drop ptr s = elim (load s ptr) [
  | none ↦ none
  | some p ↦ some (store_page s ptr.1 (record p { refs = p.refs - 1 }))
]

-- The loop over the pages of a sequence: a change of the store for each pointer.
unfoldable pub for_each : (PagePtr → Store → Option Store) → List PagePtr → Store → Option Store
for_each f [] s = some s
for_each f (p ∷ ps) s = elim (f p s) [ none ↦ none | some s' ↦ for_each f ps s' ]

-- `vg_kv_sequence_close`
unfoldable pub close : Sequence → Store → Option Store
unfolding for_each page_drop
close q s = for_each page_drop q.pages s

-- The pages of a prefix.
unfoldable pub pages_for : Config → ℕ → ℕ
pages_for c n = (n + c.page_tokens - 1) / c.page_tokens

-- `vg_kv_sequence_fork`. A sequence has the pages that its tokens take, so `take` finds all of the prefix.
unfoldable pub fork : Sequence → ℕ → Store → Option (Result Sequence × Store)
unfolding for_each page_retain pages_for
fork src prefix s =
    if ltb (length src.tokens) prefix
    then some (fail invalid, s)
    else let pages = take (pages_for s.cfg prefix) src.pages in
      elim (for_each page_retain pages s) [
        | none ↦ none
        | some s' ↦ some (ok (record { tokens = take prefix src.tokens; pages = pages }), s')
      ]

-- `vg_kv_page_acquire`: the page, the offset into its bytes and the number of bytes.
unfoldable pub page_acquire :
    Sequence → ℕ → ℕ → Bool → Store → Option (Result (PagePtr × ℕ × ℕ) × Store)
unfolding load store_page
page_acquire q layer token on_device s =
    if leb s.cfg.n_layers layer
    then some (fail invalid, s)
    else if leb (length q.tokens) token
    then some (fail invalid, s)
    else (elim (get_elem? q.pages (token / s.cfg.page_tokens)) [
      | none ↦ none
      | some ptr ↦ (elim (load s ptr) [
        | none ↦ none
        | some p ↦
            let layer_bytes =
              s.cfg.kv_heads * s.cfg.head_dim % u64 * s.cfg.element_bytes % u64 * s.cfg.page_tokens
              % u64 in
            let clock = (s.clock + 1) % u64 in
            some (
              ok (ptr, layer * layer_bytes % u64, layer_bytes),
              store_page (record s { clock = clock; page_hits = (s.page_hits + 1) % u64 }) ptr.1
                  (record p { age = clock; on_device = on_device }),
            )
      ])
    ])
