-- ===== src/TensorSource/Prefetch.antt =====
-- `vg_tensor_prefetch` and `vg_tensor_prefetch_after`.
use etha_jhol.Common.{
  ℕ, zero, suc, ◌+◌, ◌*◌, ◌%◌, none, some, List, [], ◌∷◌, ltb, leb, ◌==◌, if◌then◌else◌,
}
use etha_jhol.Common.Result.{invalid, Result, ok, fail}
use etha_jhol.Quant.{u64}
use etha_jhol.TensorSource.Cache.{Tier, host, Source}
use etha_jhol.TensorSource.Lease.{Reader, release, counted, Lease, acquire}

-- A lease is given back at once, and counted.
abbrev pub prefetched : Source → Lease → Source
prefetched s lease =
    counted (λ st. record st { prefetches = (st.prefetches + 1) % u64 }) (release s lease)

-- `vg_tensor_prefetch`
unfoldable pub prefetch : Reader → Source → List (List ℕ) → Tier → Source × Result (Unit {0})
unfolding acquire release
prefetch file s [] tier = (s, ok tt)
prefetch file s (name ∷ names) tier =
    let (s₁, r) = acquire file s name tier in
    elim r [ fail st ↦ (s₁, fail st) | ok lease ↦ prefetch file (prefetched s₁ lease) names tier ]

-- A small tensor is read ahead, and its lease given back; a failure is passed over.
abbrev read_ahead : Reader → Source → ℕ → Source
read_ahead file s i =
    let (s₁, r) = acquire file s (file.tensor i).name host in
    if leb (file.tensor i).nbytes (8 * 1024 * 1024)
    then elim r [
      | fail st ↦ s₁
      | ok lease ↦
          counted (λ st. record st { prefetch_hits = (st.prefetch_hits + 1) % u64 })
            (release s₁ lease)
    ]
    else s

-- The inner loop of `vg_tensor_prefetch_after`, from tensor `i` on.
unfoldable pub read_ahead_from : Reader → Source → ℕ → ℕ → Source
unfolding acquire release
read_ahead_from file s zero i = s
read_ahead_from file s (suc depth) i =
    let rest = read_ahead_from file (read_ahead file s i) depth (i + 1) in
    if ltb i file.count then rest else s

-- `vg_tensor_prefetch_after`
unfoldable pub prefetch_after : Reader → Source → List ℕ → ℕ → Source × Result (Unit {0})
unfolding read_ahead_from
prefetch_after file s name depth = if depth == 0 then (s, fail invalid) else elim (file.find name) [
  | none ↦ (s, fail invalid)
  | some t ↦
      if ltb t file.count then (read_ahead_from file s depth (t + 1), ok tt) else (s, fail invalid)
]
