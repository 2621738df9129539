-- ===== src/ThreadPool.antt =====
-- The thread pool of src/threadpool.c: the queue and the count of pending tasks, the sections that a
-- thread runs under the lock, and the ranges of `vg_threadpool_parallel_for`. A task is a number.
pub mod Chunks
pub mod Wait
pub mod Destroy
use etha_jhol.Common.{
  ℕ, zero, suc, ◌+◌, ◌-◌, ◌*◌, ◌/◌, ◌%◌, ◌^◌, ◌<◌, ◌≡◌, Bool, true, false, Option, none, some, List,
  [], ◌∷◌, ◌++◌, ltb, leb, ◌==◌, ◌||◌, if◌then◌else◌, length,
}

-- `VG_ThreadPool`: the tasks from `head` to `tail`.
pub record Pool : Type 0 where
  pub tasks : List ℕ
  pub n_workers : ℕ
  pub n_pending : ℕ
  pub shutdown : Bool

-- `vg_threadpool_create`
unfoldable pub create : ℕ → Pool
create n_workers = record {
  tasks = [];
  n_workers = if n_workers == 0 then 1 else n_workers;
  n_pending = 0;
  shutdown = false;
}

-- `vg_threadpool_submit`, under the lock.
unfoldable pub submit : ℕ → Pool → Pool
submit task p = record p { tasks = p.tasks ++ task ∷ []; n_pending = (p.n_pending + 1) % 2 ^ 32 }

-- What a worker does under the lock in front of a task: it goes on with the first one, sleeps, or
-- ends.
pub data Turn : Type 0 where
  run : ℕ → Pool → Turn
  sleep stop : Turn

unfoldable pub next_turn : Pool → Turn
next_turn p = elim p.tasks [
  | [] ↦ if p.shutdown then stop else sleep
  | task ∷ tasks ↦ run task (record p { tasks = tasks })
]

-- What a worker does under the lock behind a task.
unfoldable pub retire : Pool → Pool
retire p = if p.n_pending == 0 then p else record p { n_pending = p.n_pending - 1 }

-- The test on which `vg_threadpool_wait` returns.
unfoldable pub is_idle : Pool → Bool
is_idle p = if ltb 0 p.n_pending then false else true

-- A pool with its threads: the tasks that workers run now, and the history of tasks that were
-- submitted, begun and finished, each in that order.
pub record World : Type 0 where
  pub pool : Pool
  pub running : List ℕ
  pub submitted : List ℕ
  pub begun : List ℕ
  pub finished : List ℕ

-- One critical section of one of the threads.
pub data Step : World → World → Type 0 where
  submits :
      (w : World) (task : ℕ)
      → Step w (record w { pool = submit task w.pool; submitted = w.submitted ++ task ∷ [] })
  begins :
      (w : World) (task : ℕ) (p : Pool)
      → length w.running < w.pool.n_workers
      → next_turn w.pool ≡ run task p
      → Step w (record w { pool = p; running = task ∷ w.running; begun = w.begun ++ task ∷ [] })
  finishes :
      (w : World) (before after : List ℕ) (task : ℕ)
      → w.running ≡ before ++ task ∷ after
      → Step w (record w {
        pool = retire w.pool;
        running = before ++ after;
        finished = w.finished ++ task ∷ [];
      })

-- What the threads reach from a new pool, in any interleaving.
pub data Reach (n_workers : ℕ) : World → Type 0 where
  fresh :
      Reach n_workers (record {
        pool = create n_workers;
        running = [];
        submitted = [];
        begun = [];
        finished = [];
      })
  onward : {w w' : World} → Reach n_workers w → Step w w' → Reach n_workers w'

-- `VG_ParallelJob`: the range of items.
pub record Range : Type 0 where
  pub begin : ℕ
  pub end : ℕ

-- The rounds of the loop of `vg_threadpool_parallel_for` from chunk `c` on; the first argument counts
-- the rounds left.
unfoldable pub jobs_from : ℕ → ℕ → ℕ → ℕ → List Range
jobs_from zero c per n_items = []
jobs_from (suc left) c per n_items =
    let begin = c * per % 2 ^ 32 in
    let end = (begin + per) % 2 ^ 32 in
    let rest = jobs_from left (c + 1) per n_items in
    if leb n_items begin
    then []
    else record { begin = begin; end = if ltb n_items end then n_items else end } ∷ rest

-- `pool ? pool->n_workers : 1`
unfoldable pub workers_of : Option Pool → ℕ
workers_of none = 1
workers_of (some p) = p.n_workers

-- The range that the caller works on, and behind it those that it submits.
unfoldable pub parallel_for : Option Pool → ℕ → List Range
unfolding jobs_from workers_of
parallel_for pool n_items =
    let workers = workers_of pool in
    let chunks = if ltb workers n_items then workers else n_items in
    let per = (n_items + chunks - 1) % 2 ^ 32 / chunks in
    if n_items == 0
    then []
    else if leb workers 1
    then record { begin = 0; end = n_items } ∷ []
    else record { begin = 0; end = if ltb n_items per then n_items else per }
      ∷ jobs_from (chunks - 1) 1 per n_items
