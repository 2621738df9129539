-- ===== src/Tests/Pool.antt =====
-- A run of the thread pool, and the theorems about it at concrete inputs.
use etha_jhol.Common.{ℕ, ◌≡◌, refl, arith, some, [], ◌∷◌, map, concat}
use etha_jhol.ThreadPool.{
  create, submit, next_turn, retire, is_idle, World, submits, begins, finishes, Reach, fresh,
  onward, parallel_for, workers_of,
}
use etha_jhol.ThreadPool.Chunks.{items, items_from, parallel_for-items}
use etha_jhol.ThreadPool.Destroy.{Closing, Joins, closing, destroy-finished}
use etha_jhol.ThreadPool.Wait.{count}

ranges_of_ten :
    parallel_for (some (create 4)) 10
    ≡ record { begin = 0; end = 3 }
      ∷ record { begin = 3; end = 6 }
      ∷ record { begin = 6; end = 9 }
      ∷ record { begin = 9; end = 10 }
      ∷ []
unfolding parallel_for create
ranges_of_ten = refl

parallel_for-items_example :
    concat (map items (parallel_for (some (create 4)) 10)) ≡ items_from 0 10
unfolding create workers_of
parallel_for-items_example = parallel_for-items (some (create 4)) 10 (omega arith)

abbrev at_start : World
at_start = record { pool = create 2; running = []; submitted = []; begun = []; finished = [] }

abbrev queued : World
queued = record at_start { pool = submit 5 (create 2); submitted = 5 ∷ [] }

abbrev active : World
active = record queued {
  pool = record (create 2) { n_pending = 1 };
  running = 5 ∷ [];
  begun = 5 ∷ [];
}

abbrev complete : World
complete = record active { pool = retire active.pool; running = []; finished = 5 ∷ [] }

complete-Reach : Reach 2 complete
unfolding create submit next_turn
complete-Reach =
    onward
      (onward (onward fresh (submits at_start 5))
        (begins queued 5 (record (create 2) { n_pending = 1 }) (omega arith) refl))
      (finishes active [] [] 5 refl)

destroy-finished_example :
    ((c : Closing)
      → Joins (closing 2 complete) c
      → (c.world.pool.tasks ≡ []) × ((t : ℕ) → count t c.world.finished ≡ count t (5 ∷ [])))
    × Joins (closing 2 complete) (record (closing 2 complete) { alive = 0 })
unfolding create is_idle retire
destroy-finished_example = destroy-finished 2 complete-Reach (omega arith) refl
