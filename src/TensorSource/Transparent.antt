-- ===== src/TensorSource/Transparent.antt =====
-- The cache is transparent: a lease shows what a read of the tensor gives.
use etha_jhol.Common.{
  ℕ, ◌+◌, ◌%◌, ◌≡◌, inl, inr, refl, subst, ◌&&◌, some, List, [], ◌∷◌, ltb, leb, ◌==◌, get_elem?,
  Bool-cases, Option-cases, All, All-append,
}
use etha_jhol.Common.Result.{Result, Result-cases, ok, fail}
use etha_jhol.Gguf.Layout.{sub64}
use etha_jhol.Quant.{u64}
use etha_jhol.TensorSource.Cache.{Tier, storage, same_tier, Entry, Source, find_entry, evict_for}
use etha_jhol.TensorSource.Lease.{
  lease_of_map, looked_up, missed, Reader, Place, buffer, mapping, Lease, lease_at, mapped_lease,
  acquire_hit, keep, acquire_read, acquire_miss, acquire_cached, acquire_tensor, acquire,
  release_in, release, over_device, budget_of,
}
use etha_jhol.TensorSource.Prefetch.{prefetch, prefetched}
use etha_jhol.TensorSource.Kept.{All-get, All-set, evict_for-All, find_entry-at}

module _ (file : Reader) where
  -- The buffer of an entry holds the whole tensor.
  abbrev IsTrue : Entry → Type 0
  IsTrue e =
      (file.read e.tensor 0 (file.tensor e.tensor).nbytes ≡ ok e.data_bytes)
      × (e.bytes ≡ (file.tensor e.tensor).nbytes)

  abbrev pub IsCache : Source → Type 0
  IsCache s = All IsTrue s.entries

  -- What the pointer of a lease of tensor `t` shows.
  abbrev ShowsAt : ℕ → Place → Type 0
  ShowsAt t (buffer bytes) = file.read t 0 (file.tensor t).nbytes ≡ ok bytes
  ShowsAt t (mapping offset) = offset ≡ (file.data_base + (file.tensor t).data_offset) % u64

  pub record Shows (t : ℕ) (lease : Lease) : Type 0 where
    pub tensor : lease.tensor ≡ t
    pub size : lease.size ≡ (file.tensor t).nbytes
    pub place : ShowsAt t lease.place

  abbrev pub Gives : ℕ → Result Lease → Type 0
  Gives t (fail st) = Unit
  Gives t (ok lease) = Shows t lease

  abbrev Served : ℕ → Source × Result Lease → Type 0
  Served t p = IsCache p.0 × Gives t p.1

  lease_at-Shows :
      (t : ℕ) (size : Result ℕ) (lease : Lease) → lease_at file t size ≡ some lease → Shows t lease
  unfolding lease_at
  lease_at-Shows t (fail st) lease h = cc h
  lease_at-Shows t (ok size) lease h =
      elim (Bool-cases (leb (file.tensor t).data_offset (sub64 size file.data_base))) [
        | inl inside ↦
            subst (Shows t) {x = lease_of_map file t} (cc (rw (lease_at, inside) at h))
              (record { tensor = refl; size = refl; place = refl })
        | inr outside ↦ cc (rw (lease_at, outside) at h)
      ]

  acquire_hit-Served :
      (s : Source) (t i : ℕ) (e : Entry)
      → IsCache s
      → get_elem? s.entries i ≡ some e
      → e.tensor ≡ t
      → Served t (acquire_hit s t i e)
  unfolding acquire_hit
  acquire_hit-Served s t i e h at same =
      let (read, size) = All-get IsTrue s.entries i h at in
      (
        All-set IsTrue s.entries i _ (read, size) h,
        record {
          tensor = refl;
          size = subst (λ u. e.bytes ≡ (file.tensor u).nbytes) same size;
          place = subst (λ u. file.read u 0 (file.tensor u).nbytes ≡ ok e.data_bytes) same read;
        },
      )

  acquire_read-Served :
      (s : Source) (t : ℕ) (tier : Tier) (bytes : List ℕ)
      → IsCache s
      → file.read t 0 (file.tensor t).nbytes ≡ ok bytes
      → Served t (acquire_read file s t tier bytes)
  unfolding acquire_read keep
  acquire_read-Served s t tier bytes h read =
      let n = (file.tensor t).nbytes in
      let budget = budget_of s.cfg tier in
      elim (Bool-cases (over_device s tier n)) [
        | inl over ↦ rw (acquire_read, over) (h, tt)
        | inr fine ↦ elim (Bool-cases (ltb 0 budget && leb n budget)) [
          | inl fits ↦
              rw (acquire_read, fine, fits)
                (
                  All-append IsTrue (evict_for s n).entries _ (evict_for-All IsTrue s n h)
                      ((read, refl), tt),
                  record { tensor = refl; size = refl; place = read },
                )
          | inr large ↦
              rw (acquire_read, fine, large)
                (h, record { tensor = refl; size = refl; place = read })
        ]
      ]

  acquire_miss-Served :
      (s : Source) (t : ℕ) (tier : Tier) → IsCache s → Served t (acquire_miss file s t tier)
  unfolding acquire_miss
  acquire_miss-Served s t tier h = elim (Bool-cases (same_tier tier storage && s.cfg.use_mmap)) [
    | inl map ↦ elim (Option-cases (mapped_lease file t)) [
      | inl missing ↦ rw (acquire_miss, map, missing) (h, tt)
      | inr (lease, made) ↦
          rw (acquire_miss, map, made) (h, lease_at-Shows t file.map_size lease made)
    ]
    | inr cache ↦ elim (Result-cases (file.read t 0 (file.tensor t).nbytes)) [
      | inl (st, failed) ↦ rw (acquire_miss, cache, failed) (h, tt)
      | inr (bytes, read) ↦
          rw (acquire_miss, cache, read) (acquire_read-Served s t tier bytes h read)
    ]
  ]

  acquire_cached-Served :
      (s : Source) (t : ℕ) (tier : Tier) → IsCache s → Served t (acquire_cached file s t tier)
  unfolding acquire_cached
  acquire_cached-Served s t tier h = elim (Option-cases (find_entry s.entries t tier)) [
    | inl missing ↦
        rw (acquire_cached, missing) (acquire_miss-Served (missed (looked_up s)) t tier h)
    | inr ((i, e), found) ↦
        let (at, same) = find_entry-at s.entries t tier i e found in
        rw (acquire_cached, found) (acquire_hit-Served (looked_up s) t i e h at same)
  ]

  acquire_tensor-Served :
      (s : Source) (t : ℕ) (tier : Tier) → IsCache s → Served t (acquire_tensor file s t tier)
  unfolding acquire_tensor
  acquire_tensor-Served s t tier h = elim (Bool-cases (same_tier tier storage && s.cfg.use_mmap)) [
    | inl map ↦ elim (Option-cases (mapped_lease file t)) [
      | inl missing ↦
          rw (acquire_tensor, map, missing) (acquire_cached-Served (looked_up s) t tier h)
      | inr (lease, made) ↦
          rw (acquire_tensor, map, made) (h, lease_at-Shows t file.map_size lease made)
    ]
    | inr cache ↦ rw (acquire_tensor, cache) (acquire_cached-Served s t tier h)
  ]

  -- Where the buffers of the cache hold what reads of their tensors give, `acquire` keeps it so, and a
  -- lease that it gives is one of the tensor that the file has under the name, of the tensor's size,
  -- and shows what a read of the whole tensor gives or the tensor's place in the mapping.
  pub acquire-IsCache :
      (s : Source) (name : List ℕ) (tier : Tier)
      → IsCache s
      → IsCache (acquire file s name tier).0
        × ((lease : Lease)
            → (acquire file s name tier).1 ≡ ok lease
            → (t : ℕ) × (file.find name ≡ some t) × Shows t lease)
  unfolding acquire
  acquire-IsCache s name tier h = elim (Option-cases (file.find name)) [
    | inl missing ↦ rw (acquire, missing) (h, λ lease e. cc e)
    | inr (t, found) ↦
        let (cache, gives) = acquire_tensor-Served s t tier h in
        rw (acquire, found) (cache, λ lease e. (t, refl, subst (Gives t) e gives))
  ]

  release_in-IsCache :
      (lease : Lease) (es : List Entry) → All IsTrue es → All IsTrue (release_in lease es)
  unfolding release_in
  release_in-IsCache lease [] h = tt
  release_in-IsCache lease (e ∷ es) (here, rest) =
      elim (Bool-cases ((e.ticket == lease.ticket) && (e.tensor == lease.tensor))) [
        | inl mine ↦ rw (release_in, mine) (here, rest)
        | inr other ↦ rw (release_in, other) (here, release_in-IsCache lease es rest)
      ]

  pub release-IsCache : (s : Source) (lease : Lease) → IsCache s → IsCache (release s lease)
  unfolding release
  release-IsCache s lease h = elim (Bool-cases (lease.ticket == 0)) [
    | inl loose ↦ rw (release, loose) h
    | inr held ↦ rw (release, held) (release_in-IsCache lease s.entries h)
  ]

  -- Where the buffers of the cache hold what reads of their tensors give, they do so after a prefetch
  -- of any tensors, which succeeds or stops at the first that fails.
  prefetch-IsCache :
      (s : Source) (names : List (List ℕ)) (tier : Tier)
      → IsCache s
      → IsCache (prefetch file s names tier).0
  unfolding prefetch
  prefetch-IsCache s [] tier h = h
  prefetch-IsCache s (name ∷ names) tier h =
      let (cache, gives) = acquire-IsCache s name tier h in
      elim (Result-cases (acquire file s name tier).1) [
        | inl (st, failed) ↦ rw (prefetch, failed) cache
        | inr (lease, made) ↦
            rw (prefetch, made)
              (prefetch-IsCache (prefetched (acquire file s name tier).0 lease) names tier
                (release-IsCache (acquire file s name tier).0 lease cache))
      ]
