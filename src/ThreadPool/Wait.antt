-- ===== src/ThreadPool/Wait.antt =====
-- The count of pending tasks, the order of the queue, and what `vg_threadpool_wait` waits for.
use etha_jhol.Common.{
  ℕ, suc, ◌+◌, ◌%◌, ◌^◌, ◌<◌, ◌≤◌, ◌≡◌, ◌≢◌, refl, sym, ap, ◌∙◌, arith, Bool, true, false, List, [],
  ◌∷◌, ◌++◌, ◌==◌, if◌then◌else◌, length, length-append, append-nil, append_assoc,
}
use etha_jhol.ThreadPool.{
  Pool, create, submit, run, sleep, stop, next_turn, retire, is_idle, World, Step, submits, begins,
  finishes, Reach, fresh, onward,
}
use native.Mathlib.Nat.{mod-eq_of_lt}

-- How often a task is in a list.
unfoldable pub count : ℕ → List ℕ → ℕ
count t [] = 0
count t (u ∷ us) = (if u == t then 1 else 0) + count t us

count-append : (t : ℕ) (us vs : List ℕ) → count t (us ++ vs) ≡ count t us + count t vs
unfolding count
count-append t [] vs = omega arith
count-append t (u ∷ us) vs = omega (arith, count-append t us vs)

-- Nothing is lost: the queue holds what was submitted and not begun, in order, the workers run what
-- was begun and not finished, and the count of pending tasks is the number of both.
pub record IsSound (w : World) : Type 0 where
  pub queue : w.submitted ≡ w.begun ++ w.pool.tasks
  pub flight : (t : ℕ) → count t w.begun ≡ count t w.running + count t w.finished
  pub pending : w.pool.n_pending ≡ length w.pool.tasks + length w.running
  pub lengths : length w.running ≤ length w.begun

turn-cases :
    (p p' : Pool) (task : ℕ) (tasks : List ℕ)
    → p.tasks ≡ tasks
    → next_turn p ≡ run task p'
    → (p.tasks ≡ task ∷ p'.tasks) × (p'.n_pending ≡ p.n_pending)
unfolding next_turn
turn-cases p p' task [] e h = absurd (not_run p.shutdown (rw e at h))
  where
    not_run : (b : Bool) → (if b then stop else sleep) ≢ run task p'
    not_run true q = cc
    not_run false q = cc
turn-cases p p' task (t ∷ ts) e h =
    let same : run t (record p { tasks = ts }) ≡ run task p' = rw e at h in
    let pool : record p { tasks = ts } ≡ p' = cc same in
    let first : t ≡ task = cc same in
    (
      e ∙ ap (λ (x : ℕ). x ∷ ts) first ∙ ap (λ (q : Pool). task ∷ q.tasks) pool,
      ap Pool.n_pending (sym pool),
    )

-- A worker goes on with the first task of the queue.
pub next_turn-run :
    (p p' : Pool) (task : ℕ)
    → next_turn p ≡ run task p'
    → (p.tasks ≡ task ∷ p'.tasks) × (p'.n_pending ≡ p.n_pending)
next_turn-run p p' task h = turn-cases p p' task p.tasks refl h

submits-IsSound :
    (w : World) (task : ℕ)
    → length (w.submitted ++ task ∷ []) < 2 ^ 32
    → IsSound w
    → IsSound (record w { pool = submit task w.pool; submitted = w.submitted ++ task ∷ [] })
unfolding submit
submits-IsSound w task small h =
    let total : length w.submitted ≡ length w.begun + length w.pool.tasks =
      ap length h.queue ∙ length-append w.begun w.pool.tasks in
    let fits : length w.pool.tasks + length w.running + 1 < 2 ^ 32 =
      omega (arith, small, length-append w.submitted (task ∷ []), total, h.lengths) in
    record {
      queue =
          ap (λ (ts : List ℕ). ts ++ task ∷ []) h.queue
          ∙ append_assoc w.begun w.pool.tasks (task ∷ []);
      flight = h.flight;
      pending =
          ap (λ (n : ℕ). (n + 1) % 2 ^ 32) h.pending
          ∙ mod-eq_of_lt fits
          ∙ omega (arith, length-append w.pool.tasks (task ∷ []));
      lengths = h.lengths;
    }

begins-IsSound :
    (w : World) (task : ℕ) (p : Pool)
    → next_turn w.pool ≡ run task p
    → IsSound w
    → IsSound (record w { pool = p; running = task ∷ w.running; begun = w.begun ++ task ∷ [] })
unfolding count
begins-IsSound w task p turn h =
    let (tasks, pending) = next_turn-run w.pool p task turn in
    record {
      queue = h.queue ∙ ap (◌++◌ w.begun) tasks ∙ sym (append_assoc w.begun (task ∷ []) p.tasks);
      flight = λ t. omega (arith, count-append t w.begun (task ∷ []), h.flight t);
      pending = pending ∙ h.pending ∙ omega (arith, ap length tasks);
      lengths = omega (arith, length-append w.begun (task ∷ []), h.lengths);
    }

finishes-IsSound :
    (w : World) (before after : List ℕ) (task : ℕ)
    → w.running ≡ before ++ task ∷ after
    → IsSound w
    → IsSound (record w {
      pool = retire w.pool;
      running = before ++ after;
      finished = w.finished ++ task ∷ [];
    })
unfolding retire count
finishes-IsSound w before after task e h =
    let size : length w.running ≡ length before + suc (length after) =
      ap length e ∙ length-append before (task ∷ after) in
    let busy : (w.pool.n_pending == 0) ≡ false = ground (arith, h.pending, size) in
    rw busy (record {
      queue = h.queue;
      flight = λ t. omega (
        arith,
        h.flight t,
        ap (count t) e,
        count-append t before (task ∷ after),
        count-append t before after,
        count-append t w.finished (task ∷ []),
      );
      pending = omega (arith, h.pending, size, length-append before after);
      lengths = omega (arith, h.lengths, size, length-append before after);
    })

grows : {w w' : World} → Step w w' → length w.submitted ≤ length w'.submitted
grows (submits w task) = omega (arith, length-append w.submitted (task ∷ []))
grows (begins w task p free turn) = omega arith
grows (finishes w before after task e) = omega arith

Step-IsSound : {w w' : World} → Step w w' → length w'.submitted < 2 ^ 32 → IsSound w → IsSound w'
Step-IsSound (submits w task) small h = submits-IsSound w task small h
Step-IsSound (begins w task p free turn) small h = begins-IsSound w task p turn h
Step-IsSound (finishes w before after task e) small h = finishes-IsSound w before after task e h

-- In every interleaving with fewer than 2^32 submissions: the tasks that were begun and then the
-- queue are the tasks submitted, in order, every task begun runs or is finished, and the count of
-- pending tasks is the number of those queued and running.
pub Reach-IsSound :
    (n_workers : ℕ) {w : World} → Reach n_workers w → length w.submitted < 2 ^ 32 → IsSound w
unfolding create count
Reach-IsSound n_workers fresh small = record {
  queue = refl;
  flight = λ t. refl;
  pending = refl;
  lengths = omega arith;
}
Reach-IsSound n_workers (onward r s) small =
    Step-IsSound s small (Reach-IsSound n_workers r (omega (arith, grows s, small)))

empty {ℓ} : {A : Type ℓ} {xs : List A} → length xs ≡ 0 → xs ≡ []
empty {xs = []} h = refl
empty {xs = x ∷ xs} h = absurd (omega (arith, h))

-- Where `vg_threadpool_wait` returns, nothing is queued and nothing runs.
pub is_idle-empty :
    (n_workers : ℕ) {w : World}
    → Reach n_workers w
    → length w.submitted < 2 ^ 32
    → is_idle w.pool ≡ true
    → (w.pool.tasks ≡ []) × (w.running ≡ [])
unfolding is_idle
is_idle-empty n_workers {w} r small idle =
    let h = Reach-IsSound n_workers r small in
    let none_pending : w.pool.n_pending ≡ 0 = ground arith in
    (empty (omega (arith, none_pending, h.pending)), empty (omega (arith, none_pending, h.pending)))

-- In every interleaving with fewer than 2^32 submissions: where `vg_threadpool_wait` returns, every
-- task has been finished as often as it was submitted.
pub is_idle-finished :
    (n_workers : ℕ) {w : World} (t : ℕ)
    → Reach n_workers w
    → length w.submitted < 2 ^ 32
    → is_idle w.pool ≡ true
    → count t w.finished ≡ count t w.submitted
unfolding count
is_idle-finished n_workers {w} t r small idle =
    let h = Reach-IsSound n_workers r small in
    let (queued, active) = is_idle-empty n_workers r small idle in
    let same : w.submitted ≡ w.begun = h.queue ∙ ap (◌++◌ w.begun) queued ∙ append-nil w.begun in
    omega (arith, ap (count t) same, h.flight t, ap (count t) active)
