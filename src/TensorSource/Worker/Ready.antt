-- ===== src/TensorSource/Worker/Ready.antt =====
-- An entry that is ready stays ready.
use etha_jhol.Common.{
  ℕ, zero, suc, ◌≡◌, refl, sym, ap, ◌∙◌, true, some, List, [], ◌∷◌, ◌++◌, get_elem?, set, inl, inr,
  Bool-cases, Option-cases,
}
use etha_jhol.TensorSource.Lease.{Reader}
use etha_jhol.TensorSource.Worker.{
  PrefetchEntry, Write, put_data, put_bytes, set_ready, set_error, clear_error, write_entry, put,
  Worker, absent, looking, waiting, ended, serving, writing, has_thread, Async, stop_worker,
  dequeue, work, prefetch_async, Turn, asks, works, closes, Later, now, on,
}

write_entry-ready :
    (w : Write) (e : PrefetchEntry) → e.ready ≡ true → (write_entry w e).ready ≡ true
unfolding write_entry
write_entry-ready (put_data got) e h = h
write_entry-ready (put_bytes n) e h = h
write_entry-ready set_ready e h = refl
write_entry-ready set_error e h = h
write_entry-ready clear_error e h = h

-- Entry `i` is there, and ready.
abbrev pub IsReady : List PrefetchEntry → ℕ → Type 0
IsReady es i = (e : PrefetchEntry) × (get_elem? es i ≡ some e) × (e.ready ≡ true)

append-IsReady : (es more : List PrefetchEntry) (i : ℕ) → IsReady es i → IsReady (es ++ more) i
append-IsReady [] more i (e, there, ready) = cc
append-IsReady (x ∷ es) more zero h = h
append-IsReady (x ∷ es) more (suc i) h = append-IsReady es more i h

set-IsReady :
    (es : List PrefetchEntry) (k i : ℕ) (x : PrefetchEntry) (w : Write)
    → get_elem? es k ≡ some x
    → IsReady es i
    → IsReady (set es k (write_entry w x)) i
set-IsReady [] k i x w at h = cc
set-IsReady (y ∷ es) zero zero x w at (e, there, ready) =
    let same : e ≡ x = cc in
    (write_entry w x, refl, write_entry-ready w x (ap (λ z. z.ready) (sym same) ∙ ready))
set-IsReady (y ∷ es) zero (suc i) x w at h = h
set-IsReady (y ∷ es) (suc k) zero x w at h = h
set-IsReady (y ∷ es) (suc k) (suc i) x w at h = set-IsReady es k i x w at h

put-IsReady :
    (k : ℕ) (w : Write) (es : List PrefetchEntry) (i : ℕ) → IsReady es i → IsReady (put k w es) i
unfolding put
put-IsReady k w es i h = elim (Option-cases (get_elem? es k)) [
  | inl missing ↦ rw (missing, put) h
  | inr (x, at) ↦ rw (at, put) (set-IsReady es k i x w at h)
]

module _ (file : Reader) where
  work-IsReady :
      (s : Async) (v : Worker) (i : ℕ)
      → s.worker ≡ v
      → IsReady s.entries i
      → IsReady (work file s).entries i
  unfolding work dequeue
  work-IsReady s absent i e h = rw (e, work) h
  work-IsReady s ended i e h = rw (e, work) h
  work-IsReady s looking i e h = rw (e, work) (dequeued s.queue refl)
    where
      dequeued : (q : _) → s.queue ≡ q → IsReady (dequeue s).entries i
      dequeued [] same = rw (same, dequeue) h
      dequeued (req ∷ q) same = rw (same, dequeue) h
  work-IsReady s waiting i e h = rw (e, work) h
  work-IsReady s (serving req) i e h = rw (e, work) h
  work-IsReady s (writing req done []) i e h = rw (e, work) h
  work-IsReady s (writing req done (w ∷ more)) i e h =
      rw (e, work) (put-IsReady req.io_entry w s.entries i h)

  Turn-IsReady : {s t : Async} (i : ℕ) → Turn file s t → IsReady s.entries i → IsReady t.entries i
  unfolding prefetch_async stop_worker
  Turn-IsReady i (asks s name tier) h = elim (Bool-cases (has_thread s.worker)) [
    | inl with_thread ↦ rw (with_thread, prefetch_async) (append-IsReady s.entries _ i h)
    | inr without ↦ rw (without, prefetch_async) (append-IsReady s.entries _ i h)
  ]
  Turn-IsReady i (works s) h = work-IsReady s s.worker i refl h
  Turn-IsReady i (closes s) h = elim (Bool-cases (has_thread s.worker)) [
    | inl with_thread ↦ rw (with_thread, stop_worker) h
    | inr without ↦ rw (without, stop_worker) h
  ]

  pub Later-IsReady :
      {s t : Async} (i : ℕ) → Later file s t → IsReady s.entries i → IsReady t.entries i
  Later-IsReady i now h = h
  Later-IsReady i (on l turn) h = Turn-IsReady i turn (Later-IsReady i l h)
