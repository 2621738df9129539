-- ===== src/ThreadPool/Destroy.antt =====
-- `vg_threadpool_destroy`: behind the wait it tells the workers to end, joins them, and frees what is queued.
use etha_jhol.Common.{
  ℕ, zero, suc, ◌-◌, ◌^◌, ◌<◌, ◌≡◌, ◌≢◌, refl, sym, ap, ◌∙◌, subst, arith, true, [], ◌∷◌, length,
  length-append,
}
use etha_jhol.ThreadPool.{
  Pool, stop, next_turn, is_idle, World, Step, submits, begins, finishes, Reach,
}
use etha_jhol.ThreadPool.Wait.{count, next_turn-run, is_idle-empty, is_idle-finished}

-- The section under the lock.
unfoldable pub shut : Pool → Pool
shut p = record p { shutdown = true }

-- The threads during the join: `alive` workers have not ended.
pub record Closing : Type 0 where
  pub world : World
  pub alive : ℕ

-- A section of a worker, or the end of one. Nobody submits.
pub data Join : Closing → Closing → Type 0 where
  turns :
      (c : Closing) (w : World)
      → Step c.world w
      → w.submitted ≡ c.world.submitted
      → Join c (record c { world = w })
  ends :
      (c : Closing)
      → next_turn c.world.pool ≡ stop
      → length c.world.running < c.alive
      → Join c (record c { alive = c.alive - 1 })

pub data Joins (start : Closing) : Closing → Type 0 where
  at_shutdown : Joins start start
  later : {c d : Closing} → Joins start c → Join c d → Joins start d

abbrev pub closing : ℕ → World → Closing
closing alive w = record { world = record w { pool = shut w.pool }; alive = alive }

-- Where nothing is queued and nothing runs, a section of a thread is a submission.
quiet-Step :
    {u v : World} → Step u v → u.pool.tasks ≡ [] → u.running ≡ [] → v.submitted ≢ u.submitted
quiet-Step (submits u task) queued active e =
    omega (arith, ap length e, length-append u.submitted (task ∷ []))
quiet-Step (begins u task p free turn) queued active e =
    cc (sym queued ∙ (next_turn-run u.pool p task turn).0)
quiet-Step (finishes u before after task split) queued active e =
    omega (arith, ap length (sym active ∙ split), length-append before (task ∷ after))

module _ (w : World) (queued : w.pool.tasks ≡ []) (active : w.running ≡ []) where
  shut_down : World
  shut_down = record w { pool = shut w.pool }

  shut_down-tasks : shut_down.pool.tasks ≡ []
  unfolding shut_down shut
  shut_down-tasks = queued

  shut_down-running : shut_down.running ≡ []
  unfolding shut_down
  shut_down-running = active

  stops : next_turn shut_down.pool ≡ stop
  unfolding next_turn shut_down shut
  stops = rw (next_turn, queued) refl

  Joins-same : (alive : ℕ) {c : Closing} → Joins (closing alive w) c → c.world ≡ shut_down
  unfolding shut_down
  Joins-same alive at_shutdown = refl
  Joins-same alive (later j (ends c stop_turn free)) = Joins-same alive j
  Joins-same alive (later j (turns c v step e)) =
      let same = Joins-same alive j in
      absurd (
        quiet-Step step (ap (λ x. x.pool.tasks) same ∙ shut_down-tasks)
          (ap (λ x. x.running) same ∙ shut_down-running) e)

  all_end :
      (start : Closing) (alive : ℕ)
      → Joins start (record { world = shut_down; alive = alive })
      → Joins start (record { world = shut_down; alive = 0 })
  all_end start zero j = j
  all_end start (suc alive) j =
      let still : length shut_down.running < suc alive =
        omega (arith, ap length shut_down-running) in
      let fewer : suc alive - 1 ≡ alive = omega arith in
      all_end start alive (
        subst (λ n. Joins start (record { world = shut_down; alive = n })) fewer
          (later j (ends (record { world = shut_down; alive = suc alive }) stops still)))

-- In every interleaving with fewer than 2^32 submissions, where the wait of `vg_threadpool_destroy` returns
-- and nobody submits any more: whatever the workers do then, every task has been finished as often as it
-- was submitted and none is left in the queue to be freed, and all workers can end.
pub destroy-finished :
    (n_workers : ℕ) {w : World}
    → Reach n_workers w
    → length w.submitted < 2 ^ 32
    → is_idle w.pool ≡ true
    → ((c : Closing)
        → Joins (closing w.pool.n_workers w) c
        → (c.world.pool.tasks ≡ []) × ((t : ℕ) → count t c.world.finished ≡ count t w.submitted))
      × Joins (closing w.pool.n_workers w) (record (closing w.pool.n_workers w) { alive = 0 })
unfolding shut_down
destroy-finished n_workers {w} r small idle =
    let (queued, active) = is_idle-empty n_workers r small idle in
    (
      λ c j.
          let same = Joins-same w queued active w.pool.n_workers j in
          (
            ap (λ x. x.pool.tasks) same ∙ shut_down-tasks w queued active,
            λ t. ap (λ x. count t x.finished) same ∙ is_idle-finished n_workers t r small idle,
          ),
      all_end w queued active (closing w.pool.n_workers w) w.pool.n_workers at_shutdown,
    )
