-- ===== src/ThreadPool/Chunks.antt =====
-- The ranges of a parallel loop cover every item once.
use etha_jhol.Common.{
  ℕ, zero, suc, ◌+◌, ◌-◌, ◌*◌, ◌/◌, ◌%◌, ◌^◌, ◌<◌, ◌≤◌, ◌≡◌, refl, sym, ap, inl, inr, arith, Option,
  List, [], ◌∷◌, ◌++◌, ltb, leb, ◌==◌, ==_iff, if◌then◌else◌, map, concat, append-nil, Bool-cases,
}
use etha_jhol.ThreadPool.{Pool, Range, jobs_from, parallel_for, workers_of}
use native.Mathlib.Nat.{mod-eq_of_lt, div-mul-le_self, lt-div-mul-add, mul_comm}

-- The items of a range, in order.
unfoldable pub items_from : ℕ → ℕ → List ℕ
items_from start zero = []
items_from start (suc n) = start ∷ items_from (start + 1) n

unfoldable pub items : Range → List ℕ
unfolding items_from
items r = items_from r.begin (r.end - r.begin)

items_from-append :
    (start m n k : ℕ)
    → k ≡ m + n
    → items_from start k ≡ items_from start m ++ items_from (start + m) n
unfolding items_from
items_from-append start zero n k e =
    let same : start + 0 ≡ start = omega arith in
    let all : k ≡ n = omega (arith, e) in rw (same, all) refl
items_from-append start (suc m) n zero e = absurd (omega (arith, e))
items_from-append start (suc m) n (suc k) e =
    let shift : start + suc m ≡ start + 1 + m = omega arith in
    rw shift (ap (◌∷◌ start) (items_from-append (start + 1) m n k (omega (arith, e))))

-- A round in the middle, and the last one.
cover :
    (begin per n : ℕ)
    → begin < n
    → items (record { begin = begin; end = if ltb n (begin + per) then n else begin + per })
        ++ items_from (begin + per) (n - (begin + per))
      ≡ items_from begin (n - begin)
unfolding items
cover begin per n lt = elim (Bool-cases (ltb n (begin + per))) [
  | inl e ↦
      let rest : n - (begin + per) ≡ 0 = ground arith in
      rw (e, rest) (append-nil (items_from begin (n - begin)))
  | inr e ↦
      let len : begin + per - begin ≡ per = omega arith in
      let sum : n - begin ≡ per + (n - (begin + per)) = ground arith in
      rw (e, len) (sym (items_from-append begin per (n - (begin + per)) (n - begin) sum))
]

jobs_from-items :
    (left c per n : ℕ)
    → n ≤ (c + left) * per
    → (c + left) * per < 2 ^ 32
    → concat (map items (jobs_from left c per n)) ≡ items_from (c * per) (n - c * per)
unfolding jobs_from items_from
jobs_from-items zero c per n h small =
    let none_left : n - c * per ≡ 0 = omega (arith, h) in rw none_left refl
jobs_from-items (suc left) c per n h small =
    let split : (c + suc left) * per ≡ c * per + per + left * per = omega arith in
    let next : (c + 1) * per ≡ c * per + per = omega arith in
    let exact : c * per % 2 ^ 32 ≡ c * per = mod-eq_of_lt (omega (arith, split, small)) in
    let exact' : (c * per + per) % 2 ^ 32 ≡ c * per + per =
      mod-eq_of_lt (omega (arith, split, small)) in
    let below : concat (map items (jobs_from left (c + 1) per n))
        ≡ items_from (c * per + per) (n - (c * per + per)) =
      rw next at (
        jobs_from-items left (c + 1) per n (omega (arith, h, split, next))
          (omega (arith, small, split, next))) in
    rw (exact, exact')
      (elim (Bool-cases (leb n (c * per))) [
        | inl e ↦ let none_left : n - c * per ≡ 0 = ground arith in rw (e, none_left) refl
        | inr e ↦ rw (e, below) (cover (c * per) per n (ground arith))
      ])

many-items :
    (k per n : ℕ)
    → 0 < n
    → n ≤ suc k * per
    → suc k * per < 2 ^ 32
    → items (record { begin = 0; end = if ltb n per then n else per })
        ++ concat (map items (jobs_from k 1 per n))
      ≡ items_from 0 n
many-items k per n pos h small =
    let one : 1 * per ≡ per = omega arith in
    let all : (1 + k) * per ≡ suc k * per = omega arith in
    let zero_plus : 0 + per ≡ per = omega arith in
    let rest : concat (map items (jobs_from k 1 per n)) ≡ items_from per (n - per) =
      rw one at (jobs_from-items k 1 per n (omega (arith, h, all)) (omega (arith, small, all))) in
    let whole : n - 0 ≡ n = omega arith in rw rest (rw (zero_plus, whole) at (cover 0 per n pos))

per-covers :
    (chunks n : ℕ)
    → 0 < chunks
    → 0 < n
    → n + chunks ≤ 2 ^ 32
    → (n ≤ chunks * ((n + chunks - 1) % 2 ^ 32 / chunks))
      × (chunks * ((n + chunks - 1) % 2 ^ 32 / chunks) < 2 ^ 32)
per-covers chunks n pos pos' small =
    let a = n + chunks - 1 in
    let exact : a % 2 ^ 32 ≡ a = mod-eq_of_lt (omega arith) in
    let swap : chunks * (a / chunks) ≡ a / chunks * chunks = mul_comm chunks (a / chunks) in
    rw exact (
      omega (arith, swap, lt-div-mul-add {a = a} {b = chunks} pos),
      omega (arith, swap, div-mul-le_self a chunks, small),
    )

chunked-items :
    (chunks n : ℕ)
    → 0 < chunks
    → 0 < n
    → n + chunks ≤ 2 ^ 32
    → let per = (n + chunks - 1) % 2 ^ 32 / chunks in
      items (record { begin = 0; end = if ltb n per then n else per })
        ++ concat (map items (jobs_from (chunks - 1) 1 per n))
      ≡ items_from 0 n
chunked-items zero n pos pos' small = absurd (omega arith)
chunked-items (suc k) n pos pos' small =
    let k_eq : suc k - 1 ≡ k = omega arith in
    let (hi, lo) = per-covers (suc k) n pos pos' small in rw k_eq (many-items k _ n pos' hi lo)

-- Where the items and the workers together do not exceed 2^32, the ranges that a parallel loop works
-- on, the caller's first, are the items from 0 on, each exactly once and in order.
pub parallel_for-items :
    (pool : Option Pool) (n : ℕ)
    → n + workers_of pool ≤ 2 ^ 32
    → concat (map items (parallel_for pool n)) ≡ items_from 0 n
unfolding parallel_for items items_from
parallel_for-items pool n small = elim (Bool-cases (n == 0)) [
  | inl e ↦ rw (e, (==_iff n 0).0 e) refl
  | inr e ↦ elim (Bool-cases (leb (workers_of pool) 1)) [
    | inl one ↦
        let whole : n - 0 ≡ n = omega arith in rw (e, one, whole) (append-nil (items_from 0 n))
    | inr many ↦
        rw (e, many)
          (chunked-items (if ltb (workers_of pool) n then workers_of pool else n) n (ground arith)
            (ground arith) (ground arith))
  ]
]
