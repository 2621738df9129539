-- ===== src/TensorSource/Worker/Fifo.antt =====
-- The worker serves the requests in the order in which they were made, each once.
use etha_jhol.Common.{
  ℕ, zero, suc, ◌+◌, ◌<◌, ◌≡◌, refl, sym, ap, ◌∙◌, subst, arith, Bool, true, false, some, List, [],
  ◌∷◌, ◌++◌, map, map-append, append-nil, append_assoc, length, length-append, get_elem?, set, ◌==◌,
  if◌then◌else◌,
}
use etha_jhol.TensorSource.Cache.{Config}
use etha_jhol.TensorSource.Lease.{Reader}
use etha_jhol.TensorSource.Worker.{
  PrefetchEntry, Request, Worker, absent, looking, waiting, ended, serving, has_thread, Async,
  source_open, blank, stop_worker, dequeue, Write, write_entry, write_all, put, writes_of, writing,
  fill, work, enqueue, prefetch_async, Turn, asks, works, closes, Reach, here, next,
}

-- The request that the worker serves now.
abbrev pub in_work : Worker → List Request
in_work absent = []
in_work looking = []
in_work waiting = []
in_work ended = []
in_work (serving req) = req ∷ []
in_work (writing req done left) = req ∷ []

abbrev pub todo : Async → List Request
todo s = in_work s.worker ++ s.queue

abbrev pub untouched : Request → PrefetchEntry
untouched req = blank req.name req.tier

-- The entry of the request that the worker serves now, as far as it is written.
abbrev pub current : Worker → List PrefetchEntry
current absent = []
current looking = []
current waiting = []
current ended = []
current (serving req) = untouched req ∷ []
current (writing req done left) = write_all done (untouched req) ∷ []

length-current : (w : Worker) → length (current w) ≡ length (in_work w)
length-current absent = refl
length-current looking = refl
length-current waiting = refl
length-current ended = refl
length-current (serving req) = refl
length-current (writing req done left) = refl

write_all-snoc :
    (done : List Write) (w : Write) (e : PrefetchEntry)
    → write_all (done ++ w ∷ []) e ≡ write_entry w (write_all done e)
unfolding write_all
write_all-snoc [] w e = refl
write_all-snoc (x ∷ done) w e = write_all-snoc done w (write_entry x e)

-- The requests are for the entries from `i` on, in order.
abbrev pub IsFrom : ℕ → List Request → Type 0
IsFrom i [] = Unit
IsFrom i (req ∷ reqs) = (req.io_entry ≡ i) × IsFrom (suc i) reqs

IsFrom-snoc :
    (i : ℕ) (reqs : List Request) (req : Request)
    → IsFrom i reqs
    → req.io_entry ≡ i + length reqs
    → IsFrom i (reqs ++ req ∷ [])
IsFrom-snoc i [] req h e = (omega (arith, e), tt)
IsFrom-snoc i (r ∷ reqs) req (first, h) e =
    (first, IsFrom-snoc (suc i) reqs req h (omega (arith, e)))

get_elem?-behind {ℓ} :
    {A : Type ℓ} (xs : List A) (y : A) (ys : List A) (i : ℕ)
    → i ≡ length xs
    → get_elem? (xs ++ y ∷ ys) i ≡ some y
get_elem?-behind [] y ys zero e = refl
get_elem?-behind [] y ys (suc i) e = absurd (omega (arith, e))
get_elem?-behind (x ∷ xs) y ys zero e = absurd (omega (arith, e))
get_elem?-behind (x ∷ xs) y ys (suc i) e = get_elem?-behind xs y ys i (omega (arith, e))

set-behind {ℓ} :
    {A : Type ℓ} (xs : List A) (y z : A) (ys : List A) (i : ℕ)
    → i ≡ length xs
    → set (xs ++ y ∷ ys) i z ≡ xs ++ z ∷ ys
set-behind [] y z ys zero e = refl
set-behind [] y z ys (suc i) e = absurd (omega (arith, e))
set-behind (x ∷ xs) y z ys zero e = absurd (omega (arith, e))
set-behind (x ∷ xs) y z ys (suc i) e = ap (λ t. x ∷ t) (set-behind xs y z ys i (omega (arith, e)))

length-map {ℓ κ} :
    {A : Type ℓ} {B : Type κ} (f : A → B) (xs : List A) → length (map f xs) ≡ length xs
length-map f [] = refl
length-map f (x ∷ xs) = ap suc (length-map f xs)

module _ (file : Reader) where
  -- What the lookup of the name and the read give for a request.
  abbrev pub outcome : Request → PrefetchEntry
  outcome req = fill file req.name (untouched req)

  -- The stores made and the stores left are those of the request.
  abbrev pub IsRound : Worker → Type 0
  IsRound absent = Unit
  IsRound looking = Unit
  IsRound waiting = Unit
  IsRound ended = Unit
  IsRound (serving req) = Unit
  IsRound (writing req done left) = done ++ left ≡ writes_of file req.name

  -- The requests served so far, and how the entries stand.
  pub record IsFifo (s : Async) : Type 0 where
    pub served : List Request
    pub order : s.asked ≡ served ++ todo s
    pub numbers : IsFrom (length served) (todo s)
    pub entries : s.entries ≡ map outcome served ++ (current s.worker ++ map untouched s.queue)
    pub stores : IsRound s.worker

  pub record IsWorked (s : Async) : Type 0 where
    pub thread : has_thread s.worker ≡ true
    pub fifo : IsFifo s

  length-entries : (s : Async) (h : IsFifo s) → length s.entries ≡ length h.served + length (todo s)
  length-entries s h =
      ap length h.entries
      ∙ omega (
        arith,
        length-append (map outcome h.served) (current s.worker ++ map untouched s.queue),
        length-append (current s.worker) (map untouched s.queue),
        length-append (in_work s.worker) s.queue,
        length-current s.worker,
        length-map outcome h.served,
        length-map untouched s.queue,
      )

  -- A request at the end of the queue.
  asked-IsFifo :
      (s : Async) (req : Request)
      → req.io_entry ≡ length s.entries
      → IsFifo s
      → IsFifo (enqueue file req s)
  unfolding enqueue
  asked-IsFifo s req number h =
      let longer : in_work s.worker ++ (s.queue ++ req ∷ []) ≡ todo s ++ req ∷ [] =
        sym (append_assoc (in_work s.worker) s.queue (req ∷ [])) in
      record {
        served = h.served;
        order =
            ap (λ t. t ++ req ∷ []) h.order
            ∙ append_assoc h.served (todo s) (req ∷ [])
            ∙ ap (λ t. h.served ++ t) (sym longer);
        numbers =
            subst (IsFrom (length h.served)) (sym longer)
              (IsFrom-snoc (length h.served) (todo s) req h.numbers (number ∙ length-entries s h));
        entries =
            ap (λ t. t ++ untouched req ∷ []) h.entries
            ∙ append_assoc (map outcome h.served) (current s.worker ++ map untouched s.queue)
                (untouched req ∷ [])
            ∙ ap (λ t. map outcome h.served ++ t)
                (append_assoc (current s.worker) (map untouched s.queue) (untouched req ∷ [])
                  ∙ ap (λ t. current s.worker ++ t)
                      (sym (map-append untouched s.queue (req ∷ []))));
        stores = h.stores;
      }

  prefetch_async-IsWorked :
      (s : Async) (name : List ℕ) (tier : _)
      → IsWorked s
      → IsWorked (prefetch_async file name tier s).0
  unfolding prefetch_async enqueue
  prefetch_async-IsWorked s name tier h =
      rw h.thread (record { thread = h.thread; fifo = asked-IsFifo s _ refl h.fifo })

  put-behind :
      (i : ℕ) (w : Write) (before : List PrefetchEntry) (e : PrefetchEntry)
      → (after : List PrefetchEntry) → i ≡ length before
      → put i w (before ++ e ∷ after) ≡ before ++ write_entry w e ∷ after
  unfolding put
  put-behind i w before e after n =
      rw (get_elem?-behind before e after i n, put)
        (set-behind before e (write_entry w e) after i n)

  -- The number of the entry that is written.
  io_entry-served :
      (s : Async) (h : IsFifo s) (req : Request)
      → in_work s.worker ≡ req ∷ []
      → req.io_entry ≡ length (map outcome h.served)
  io_entry-served s h req at_work =
      (subst (λ rs. IsFrom (length h.served) (rs ++ s.queue)) at_work h.numbers).0
      ∙ sym (length-map outcome h.served)

  -- A store into the entry.
  written :
      (s : Async) (req : Request) (done more : List Write) (w : Write)
      → (h : IsFifo s) → s.worker ≡ writing req done (w ∷ more)
      → put req.io_entry w s.entries
        ≡ map outcome h.served
          ++ (write_all (done ++ w ∷ []) (untouched req) ∷ map untouched s.queue)
  written s req done more w h at_work =
      ap (put req.io_entry w)
        (h.entries ∙ ap (λ x. map outcome h.served ++ (current x ++ map untouched s.queue)) at_work)
      ∙ put-behind req.io_entry w (map outcome h.served) (write_all done (untouched req))
          (map untouched s.queue) (io_entry-served s h req (ap in_work at_work))
      ∙ ap (λ e. map outcome h.served ++ (e ∷ map untouched s.queue))
          (sym (write_all-snoc done w (untouched req)))

  -- What changes neither the entries nor the requests to be served.
  IsFifo-same :
      (s t : Async)
      → t.asked ≡ s.asked
      → t.entries ≡ s.entries
      → todo t ≡ todo s
      → current t.worker ++ map untouched t.queue ≡ current s.worker ++ map untouched s.queue
      → IsRound t.worker
      → IsFifo s
      → IsFifo t
  IsFifo-same s t asked_same entries_same same behind stores h = record {
    served = h.served;
    order = asked_same ∙ h.order ∙ ap (λ rs. h.served ++ rs) (sym same);
    numbers = subst (IsFrom (length h.served)) (sym same) h.numbers;
    entries = entries_same ∙ h.entries ∙ ap (λ es. map outcome h.served ++ es) (sym behind);
    stores = stores;
  }

  dequeue-IsWorked :
      (s : Async) (q : List Request)
      → s.queue ≡ q
      → s.worker ≡ looking
      → IsFifo s
      → IsWorked (dequeue s)
  unfolding dequeue
  dequeue-IsWorked s [] e at_work h =
      rw (e, dequeue)
        (record {
          thread = refl;
          fifo =
              IsFifo-same s (record s { worker = waiting }) refl refl
                (ap (λ w. in_work w ++ s.queue) (sym at_work))
                (ap (λ w. current w ++ map untouched s.queue) (sym at_work)) tt h;
        })
  dequeue-IsWorked s (req ∷ q) e at_work h =
      rw (e, dequeue)
        (record {
          thread = refl;
          fifo =
              IsFifo-same s (record s { queue = q; worker = serving req }) refl refl
                (sym (ap (λ w. in_work w ++ s.queue) at_work ∙ e))
                (sym (ap (λ w. current w ++ map untouched s.queue) at_work ∙ ap (map untouched) e))
                tt h;
        })

  serving-IsFifo :
      (s : Async) (req : Request)
      → s.worker ≡ serving req
      → IsFifo s
      → IsFifo (record s { worker = writing req [] (writes_of file req.name) })
  unfolding write_all
  serving-IsFifo s req at_work h =
      IsFifo-same s (record s { worker = writing req [] (writes_of file req.name) }) refl refl
        (sym (ap (λ w. in_work w ++ s.queue) at_work))
        (sym (ap (λ w. current w ++ map untouched s.queue) at_work)) refl h

  store-IsFifo :
      (s : Async) (req : Request) (done more : List Write) (w : Write)
      → s.worker ≡ writing req done (w ∷ more)
      → IsFifo s
      → IsFifo (record s {
        worker = writing req (done ++ w ∷ []) more;
        entries = put req.io_entry w s.entries;
      })
  store-IsFifo s req done more w at_work h =
      let now : todo s ≡ req ∷ s.queue = ap (λ w. in_work w ++ s.queue) at_work in
      record {
        served = h.served;
        order = h.order ∙ ap (λ rs. h.served ++ rs) now;
        numbers = subst (IsFrom (length h.served)) now h.numbers;
        entries = written s req done more w h at_work;
        stores = append_assoc done (w ∷ []) more ∙ subst IsRound at_work h.stores;
      }

  written-IsFifo :
      (s : Async) (req : Request) (done : List Write)
      → s.worker ≡ writing req done []
      → IsFifo s
      → IsFifo (record s { worker = looking })
  unfolding fill
  written-IsFifo s req done at_work h =
      let now : todo s ≡ req ∷ s.queue = ap (λ w. in_work w ++ s.queue) at_work in
      let all : done ≡ writes_of file req.name =
        sym (append-nil done) ∙ subst IsRound at_work h.stores in
      let whole : write_all done (untouched req) ≡ outcome req =
        ap (λ ws. write_all ws (untouched req)) all in
      record {
        served = h.served ++ req ∷ [];
        order =
            h.order
            ∙ ap (λ rs. h.served ++ rs) now
            ∙ sym (append_assoc h.served (req ∷ []) s.queue);
        numbers =
            subst (λ n. IsFrom n s.queue) (omega (arith, length-append h.served (req ∷ [])))
              (subst (IsFrom (length h.served)) now h.numbers).1;
        entries =
            h.entries
            ∙ ap (λ w. map outcome h.served ++ (current w ++ map untouched s.queue)) at_work
            ∙ ap (λ e. map outcome h.served ++ (e ∷ map untouched s.queue)) whole
            ∙ sym (append_assoc (map outcome h.served) (outcome req ∷ []) (map untouched s.queue))
            ∙ ap (λ t. t ++ map untouched s.queue) (sym (map-append outcome h.served (req ∷ [])));
        stores = tt;
      }

  awake :
      (running : Bool)
      → (has_thread (if running then looking else ended) ≡ true)
        × (in_work (if running then looking else ended) ≡ [])
        × (current (if running then looking else ended) ≡ [])
        × IsRound (if running then looking else ended)
  awake true = (refl, refl, refl, tt)
  awake false = (refl, refl, refl, tt)

  -- A section or a store of the worker.
  pub section-IsWorked :
      (s : Async) (w : Worker) → s.worker ≡ w → IsWorked s → IsWorked (work file s)
  unfolding work
  section-IsWorked s absent e h = cc (sym h.thread ∙ ap has_thread e)
  section-IsWorked s ended e h = rw (e, work) h
  section-IsWorked s looking e h = rw (e, work) (dequeue-IsWorked s s.queue refl e h.fifo)
  section-IsWorked s waiting e h =
      rw (e, work) (asleep (if s.running then looking else ended) (awake s.running))
    where
      asleep :
          (w : Worker)
          → (has_thread w ≡ true) × (in_work w ≡ []) × (current w ≡ []) × IsRound w
          → IsWorked (record s { worker = w })
      asleep w (thread, nothing, none_written, stores) = record {
        thread = thread;
        fifo =
            IsFifo-same s (record s { worker = w }) refl refl
              (ap (λ rs. rs ++ s.queue) (nothing ∙ ap in_work (sym e)))
              (ap (λ es. es ++ map untouched s.queue) (none_written ∙ ap current (sym e))) stores
              h.fifo;
      }
  section-IsWorked s (serving req) e h =
      rw (e, work) (record { thread = refl; fifo = serving-IsFifo s req e h.fifo })
  section-IsWorked s (writing req done []) e h =
      rw (e, work) (record { thread = refl; fifo = written-IsFifo s req done e h.fifo })
  section-IsWorked s (writing req done (w ∷ more)) e h =
      rw (e, work) (record { thread = refl; fifo = store-IsFifo s req done more w e h.fifo })

  stop_worker-IsWorked : (s : Async) → IsWorked s → IsWorked (stop_worker s)
  unfolding stop_worker
  stop_worker-IsWorked s h =
      rw (h.thread, stop_worker)
        (record {
          thread = h.thread;
          fifo =
              IsFifo-same s (record s { running = false }) refl refl refl refl h.fifo.stores h.fifo;
        })

  Turn-IsWorked : {s t : Async} → Turn file s t → IsWorked s → IsWorked t
  Turn-IsWorked (asks s name tier) h = prefetch_async-IsWorked s name tier h
  Turn-IsWorked (works s) h = section-IsWorked s s.worker refl h
  Turn-IsWorked (closes s) h = stop_worker-IsWorked s h

  -- With a worker, in every interleaving of the sections of the callers and the worker and of the worker's stores
  -- into the entries: the requests are served in the order in which they were made, the entry of each request
  -- that was served holds just what the lookup of its name and the read gave, that of the request being
  -- served what some of these stores, in their order from the first, have written, and the entry of every other request is untouched.
  pub Reach-IsWorked :
      (cfg : Config) (io_workers : ℕ) {s : Async}
      → 0 < io_workers
      → Reach file (some (cfg, io_workers)) s
      → IsWorked s
  unfolding source_open
  Reach-IsWorked cfg io_workers some_worker here =
      let any : (io_workers == 0) ≡ false = ground arith in
      rw any (record {
        thread = refl;
        fifo = record { served = []; order = refl; numbers = tt; entries = refl; stores = tt };
      })
  Reach-IsWorked cfg io_workers some_worker (next r turn) =
      Turn-IsWorked turn (Reach-IsWorked cfg io_workers some_worker r)
