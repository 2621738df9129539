-- ===== src/TensorSource/Worker/Settles.antt =====
-- The worker serves every request, where there is one; without one the entries stay as they are.
use etha_jhol.Common.{
  ℕ, zero, suc, ◌<◌, ◌≡◌, ◌≢◌, refl, sym, ap, ◌∙◌, subst, true, false, none, some, List, [], ◌∷◌,
  ◌++◌, map, append-nil, All, All-append, Option-cases, inl, inr,
}
use etha_jhol.TensorSource.Cache.{Config}
use etha_jhol.TensorSource.Lease.{Reader}
use etha_jhol.TensorSource.Worker.{
  PrefetchEntry, Request, Worker, absent, looking, waiting, ended, serving, has_thread, Async,
  source_open, wait, stop_worker, dequeue, Write, write_all, put, writing, writes_of, behind_read,
  fill, work, prefetch_async, Turn, asks, works, closes, Reach, here, next,
}
use etha_jhol.Common.Result.{Result, fail, ok}
use etha_jhol.TensorSource.Worker.Fifo.{
  untouched, todo, in_work, current, outcome, IsWorked, section-IsWorked, Reach-IsWorked,
}

queue_empty : (xs ys : List Request) → xs ++ ys ≡ [] → ys ≡ []
queue_empty [] ys h = h
queue_empty (x ∷ xs) ys h = cc

module _ (file : Reader) where
  -- Sections and stores of the worker alone.
  abbrev pub work_turns : ℕ → Async → Async
  work_turns zero s = s
  work_turns (suc n) s = work_turns n (work file s)

  -- The worker has found the queue empty, and nothing else was asked for.
  record IsSettled (s t : Async) : Type 0 where
    worked : IsWorked file t
    asked : t.asked ≡ s.asked
    idle : todo t ≡ []
    still : current t.worker ≡ []

  work-looking : (s : Async) → s.worker ≡ looking → work file s ≡ dequeue s
  unfolding work
  work-looking s e = rw (e, work) refl

  work-serving :
      (s : Async) (req : Request)
      → s.worker ≡ serving req
      → work file s ≡ record s { worker = writing req [] (writes_of file req.name) }
  unfolding work
  work-serving s req e = rw (e, work) refl

  work-store :
      (s : Async) (req : Request) (done more : List Write) (w : Write)
      → s.worker ≡ writing req done (w ∷ more)
      → work file s ≡ record s {
        worker = writing req (done ++ w ∷ []) more;
        entries = put req.io_entry w s.entries;
      }
  unfolding work
  work-store s req done more w e = rw (e, work) refl

  work-written :
      (s : Async) (req : Request) (done : List Write)
      → s.worker ≡ writing req done []
      → work file s ≡ record s { worker = looking }
  unfolding work
  work-written s req done e = rw (e, work) refl

  dequeue-empty : (s : Async) → s.queue ≡ [] → dequeue s ≡ record s { worker = waiting }
  unfolding dequeue
  dequeue-empty s e =
      ap (λ q. dequeue (record s { queue = q })) e
      ∙ ap (λ q. record s { queue = q; worker = waiting }) (sym e)

  dequeue-first :
      (s : Async) (req : Request) (q : List Request)
      → s.queue ≡ req ∷ q
      → dequeue s ≡ record s { queue = q; worker = serving req }
  unfolding dequeue
  dequeue-first s req q e = rw (e, dequeue) refl

  work-IsWorked : (s : Async) → IsWorked file s → IsWorked file (work file s)
  work-IsWorked s h = section-IsWorked file s s.worker refl h

  -- From a state whose next section leads to `t`.
  one_turn :
      (s t : Async)
      → work file s ≡ t
      → t.asked ≡ s.asked
      → (n : ℕ) × IsSettled t (work_turns n t)
      → (n : ℕ) × IsSettled s (work_turns n s)
  one_turn s t eq same (n, settled) = (
    suc n,
    subst (λ x. IsSettled s (work_turns n x)) (sym eq)
        (record {
          worked = settled.worked;
          asked = settled.asked ∙ same;
          idle = settled.idle;
          still = settled.still;
        }),
  )

  -- The worker makes the stores that are left, and looks for a request again.
  write_out :
      (left : List Write) (req : Request) (done : List Write) (s : Async)
      → s.worker ≡ writing req done left
      → IsWorked file s
      → ((t : Async)
          → t.worker ≡ looking
          → t.queue ≡ s.queue
          → IsWorked file t
          → (n : ℕ) × IsSettled t (work_turns n t))
      → (n : ℕ) × IsSettled s (work_turns n s)
  write_out [] req done s e h go =
      let eq = work-written s req done e in
      let t : Async = record s { worker = looking } in
      one_turn s t eq refl (go t refl refl (subst (IsWorked file) eq (work-IsWorked s h)))
  write_out (w ∷ more) req done s e h go =
      let eq = work-store s req done more w e in
      let t : Async = record s {
        worker = writing req (done ++ w ∷ []) more;
        entries = put req.io_entry w s.entries;
      } in
      one_turn s t eq refl (
        write_out more req (done ++ w ∷ []) t refl (subst (IsWorked file) eq (work-IsWorked s h))
          go)

  serve :
      (req : Request) (s : Async)
      → s.worker ≡ serving req
      → IsWorked file s
      → ((t : Async)
          → t.worker ≡ looking
          → t.queue ≡ s.queue
          → IsWorked file t
          → (n : ℕ) × IsSettled t (work_turns n t))
      → (n : ℕ) × IsSettled s (work_turns n s)
  serve req s e h go =
      let eq = work-serving s req e in
      let t : Async = record s { worker = writing req [] (writes_of file req.name) } in
      one_turn s t eq refl (
        write_out (writes_of file req.name) req [] t refl
          (subst (IsWorked file) eq (work-IsWorked s h)) go)

  drain :
      (q : List Request) (s : Async)
      → s.queue ≡ q
      → s.worker ≡ looking
      → IsWorked file s
      → (n : ℕ) × IsSettled s (work_turns n s)
  drain [] s queued e h =
      let eq = work-looking s e ∙ dequeue-empty s queued in
      one_turn s (record s { worker = waiting }) eq refl
        (
          0,
          record {
            worked = subst (IsWorked file) eq (work-IsWorked s h);
            asked = refl;
            idle = queued;
            still = refl;
          },
        )
  drain (req ∷ q) s queued e h =
      let t : Async = record s { queue = q; worker = serving req } in
      let eq = work-looking s e ∙ dequeue-first s req q queued in
      one_turn s t eq refl (
        serve req t refl (subst (IsWorked file) eq (work-IsWorked s h))
          (λ u looks same k. drain q u same looks k))

  settle :
      (w : Worker) (s : Async)
      → s.worker ≡ w
      → w ≢ ended
      → s.running ≡ true
      → IsWorked file s
      → (n : ℕ) × IsSettled s (work_turns n s)
  unfolding work
  settle absent s e alive going h = cc (sym h.thread ∙ ap has_thread e)
  settle ended s e alive going h = absurd (alive refl)
  settle looking s e alive going h = drain s.queue s refl e h
  settle waiting s e alive going h =
      let t : Async = record s { worker = looking } in
      let eq : work file s ≡ t = rw (e, work) (rw going refl) in
      one_turn s t eq refl
        (drain s.queue t refl refl (subst (IsWorked file) eq (work-IsWorked s h)))
  settle (serving req) s e alive going h =
      serve req s e h (λ t looks same k. drain t.queue t refl looks k)
  settle (writing req done left) s e alive going h =
      write_out left req done s e h (λ t looks same k. drain t.queue t refl looks k)

  behind_read-ready :
      (r : Result (List ℕ)) (n : ℕ) (e : PrefetchEntry)
      → (write_all (behind_read r n) e).ready ≡ true
  unfolding behind_read write_all
  behind_read-ready (fail st) n e = refl
  behind_read-ready (ok got) n e = refl

  fill-ready : (name : List ℕ) (e : PrefetchEntry) → (fill file name e).ready ≡ true
  unfolding fill
  fill-ready name e = elim (Option-cases (file.find name)) [
    | inl missing ↦ rw (missing, writes_of) refl
    | inr (t, found) ↦ rw (found, writes_of) (behind_read-ready _ _ e)
  ]

  outcomes-ready : (reqs : List Request) → All (λ e. e.ready ≡ true) (map (outcome file) reqs)
  outcomes-ready [] = tt
  outcomes-ready (req ∷ reqs) = (fill-ready req.name _, outcomes-ready reqs)

  -- From every state that can be reached while the source is not being closed and its worker runs,
  -- sections and stores of the worker alone lead to one in which the entry of every request is ready, with what the
  -- lookup of its name and the read give.
  pub work_turns-settle :
      (cfg : Config) (io_workers : ℕ) {s : Async}
      → 0 < io_workers
      → Reach file (some (cfg, io_workers)) s
      → s.worker ≢ ended
      → s.running ≡ true
      → (n : ℕ) × ((work_turns n s).entries ≡ map (outcome file) s.asked)
        × All (λ e. e.ready ≡ true) (work_turns n s).entries
  work_turns-settle cfg io_workers {s} some_worker r alive going =
      let h = Reach-IsWorked file cfg io_workers some_worker r in
      let (n, settled) = settle s.worker s refl alive going h in
      let t = work_turns n s in
      let k = settled.worked.fifo in
      let whole : s.asked ≡ k.served =
        sym settled.asked
        ∙ k.order
        ∙ ap (λ rs. k.served ++ rs) settled.idle
        ∙ append-nil k.served in
      let eq : t.entries ≡ map (outcome file) s.asked =
        k.entries
        ∙ ap (λ es. map (outcome file) k.served ++ (es ++ map untouched t.queue)) settled.still
        ∙ ap (λ rs. map (outcome file) k.served ++ map untouched rs)
            (queue_empty (in_work t.worker) t.queue settled.idle)
        ∙ append-nil (map (outcome file) k.served)
        ∙ ap (map (outcome file)) (sym whole) in
      (n, eq, subst (All (λ e. e.ready ≡ true)) (sym eq) (outcomes-ready s.asked))

  -- Without a thread.
  record IsIdle (s : Async) : Type 0 where
    absent : has_thread s.worker ≡ false
    waits : All (λ e. (later : PrefetchEntry) → wait e later ≡ none) s.entries

  absent-same : (w : Worker) (s : Async) → s.worker ≡ w → has_thread w ≡ false → work file s ≡ s
  unfolding work
  absent-same absent s e none_there =
      ap (λ w. work file (record s { worker = w })) e ∙ ap (λ w. record s { worker = w }) (sym e)
  absent-same looking s e none_there = cc
  absent-same waiting s e none_there = cc
  absent-same ended s e none_there = cc
  absent-same (serving req) s e none_there = cc
  absent-same (writing req done left) s e none_there = cc

  Turn-IsIdle : {s t : Async} → Turn file s t → IsIdle s → IsIdle t
  unfolding prefetch_async stop_worker wait
  Turn-IsIdle (asks s name tier) h =
      rw (h.absent, prefetch_async)
        (record {
          absent = h.absent;
          waits =
              All-append (λ e. (later : PrefetchEntry) → wait e later ≡ none) s.entries _ h.waits
                ((λ later. refl), tt);
        })
  Turn-IsIdle (works s) h = subst IsIdle (sym (absent-same s.worker s refl h.absent)) h
  Turn-IsIdle (closes s) h = rw (h.absent, stop_worker) h

  -- Without a worker: in every state that can be reached, `vg_tensor_wait` goes on waiting for each entry
  -- that was handed to `vg_tensor_prefetch_async`, whether the prefetch at once succeeded or failed.
  pub wait-hangs :
      (cfg : Config) {s : Async}
      → Reach file (some (cfg, 0)) s
      → All (λ e. (later : PrefetchEntry) → wait e later ≡ none) s.entries
  unfolding source_open
  wait-hangs cfg r = (idle r).waits
    where
      idle : {s : Async} → Reach file (some (cfg, 0)) s → IsIdle s
      idle here = record { absent = refl; waits = tt }
      idle (next r turn) = Turn-IsIdle turn (idle r)
