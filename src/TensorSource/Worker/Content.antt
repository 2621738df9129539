-- ===== src/TensorSource/Worker/Content.antt =====
-- What a caller has after `vg_tensor_wait`, over an open file.
use etha_jhol.Common.{
  ℕ, zero, suc, ◌+◌, ◌^◌, ◌<◌, ◌≡◌, ◌≢◌, refl, sym, ap, ◌∙◌, arith, true, false, some, List, [],
  ◌∷◌, ◌++◌, map, get_elem?, length, take, Bool-cases, ◌⊎◌, inl, inr, Option-cases,
}
use etha_jhol.Common.Result.{Result, fail, ok}
use etha_jhol.Gguf.File.{find_tensor}
use etha_jhol.Gguf.File.Ranges.{IsPlaced}
use etha_jhol.Gguf.Read.{Disk, Handle, slice}
use etha_jhol.Gguf.Read.Slices.{gguf_read-total}
use etha_jhol.TensorSource.Cache.{Config}
use etha_jhol.TensorSource.Lease.{Reader}
use etha_jhol.TensorSource.OpenFile.{reader_of, content_of}
use etha_jhol.TensorSource.Worker.{
  PrefetchEntry, Request, Write, put_data, put_bytes, set_ready, set_error, clear_error, Worker,
  absent, looking, waiting, ended, serving, writing, Async, write_entry, write_all, failing,
  behind_read, writes_of, fill, wait, Reach, next, Later, now, on,
}
use etha_jhol.TensorSource.Worker.Fifo.{
  outcome, untouched, current, IsRound, IsFifo, Reach-IsWorked,
}
use etha_jhol.TensorSource.Worker.Ready.{Later-IsReady}

-- An entry of a list of images.
get_elem?-map {ℓ κ} :
    {A : Type ℓ} {B : Type κ} (f : A → B) (xs : List A) (i : ℕ) (y : B)
    → get_elem? (map f xs) i ≡ some y
    → (x : A) × (f x ≡ y)
get_elem?-map f [] i y h = cc
get_elem?-map f (x ∷ xs) zero y h = (x, cc h)
get_elem?-map f (x ∷ xs) (suc i) y h = get_elem?-map f xs i y h

get_elem?-append {ℓ} :
    {A : Type ℓ} (xs ys : List A) (i : ℕ) (y : A)
    → get_elem? (xs ++ ys) i ≡ some y
    → (get_elem? xs i ≡ some y) ⊎ ((j : ℕ) × (get_elem? ys j ≡ some y))
get_elem?-append [] ys i y h = inr (i, h)
get_elem?-append (x ∷ xs) ys zero y h = inl h
get_elem?-append (x ∷ xs) ys (suc i) y h = get_elem?-append xs ys i y h

same_some {ℓ} : {A : Type ℓ} (r t : A) → some r ≡ some t → r ≡ t
same_some r t e = cc

take-done {ℓ} :
    {A : Type ℓ} (done left ws : List A) → done ++ left ≡ ws → done ≡ take (length done) ws
take-done [] left ws h = refl
take-done (x ∷ done) left [] h = cc
take-done (x ∷ done) left (w ∷ ws) h =
    let here : x ≡ w = cc in
    let more : done ++ left ≡ ws = cc in
    ap (λ y. y ∷ done) here ∙ ap (λ ys. w ∷ ys) (take-done done left ws more)

-- Where some of the stores have made an entry ready, it is as all of them leave it.
take-failing :
    (n : ℕ) (req : Request)
    → (write_all (take n failing) (untouched req)).ready ≡ true
    → write_all (take n failing) (untouched req) ≡ write_all failing (untouched req)
unfolding write_all
take-failing zero req h = cc
take-failing (suc zero) req h = cc
take-failing (suc (suc zero)) req h = refl
take-failing (suc (suc (suc n))) req h = refl

take-behind_read :
    (r : Result (List ℕ)) (size n : ℕ) (req : Request)
    → (write_all (take n (behind_read r size)) (untouched req)).ready ≡ true
    → write_all (take n (behind_read r size)) (untouched req)
      ≡ write_all (behind_read r size) (untouched req)
unfolding write_all behind_read
take-behind_read (fail st) size n req h = take-failing n req h
take-behind_read (ok got) size zero req h = cc
take-behind_read (ok got) size (suc zero) req h = cc
take-behind_read (ok got) size (suc (suc zero)) req h = cc
take-behind_read (ok got) size (suc (suc (suc zero))) req h = refl
take-behind_read (ok got) size (suc (suc (suc (suc zero)))) req h = refl
take-behind_read (ok got) size (suc (suc (suc (suc (suc n))))) req h = refl

module _ (file : Reader) where
  take-writes_of :
      (n : ℕ) (req : Request)
      → (write_all (take n (writes_of file req.name)) (untouched req)).ready ≡ true
      → write_all (take n (writes_of file req.name)) (untouched req) ≡ outcome file req
  unfolding writes_of fill
  take-writes_of n req h = elim (Option-cases (file.find req.name)) [
    | inl missing ↦ rw (missing, writes_of) (take-failing n req (rw (missing, writes_of) at h))
    | inr (t, found) ↦
        rw (found, writes_of) (take-behind_read _ _ n req (rw (found, writes_of) at h))
  ]

  write_entry-name : (w : Write) (e : PrefetchEntry) → (write_entry w e).name ≡ e.name
  unfolding write_entry
  write_entry-name (put_data got) e = refl
  write_entry-name (put_bytes n) e = refl
  write_entry-name set_ready e = refl
  write_entry-name set_error e = refl
  write_entry-name clear_error e = refl

  write_all-name : (ws : List Write) (e : PrefetchEntry) → (write_all ws e).name ≡ e.name
  unfolding write_all
  write_all-name [] e = refl
  write_all-name (w ∷ ws) e = write_all-name ws (write_entry w e) ∙ write_entry-name w e

  outcome-name : (req : Request) → (outcome file req).name ≡ req.name
  unfolding fill
  outcome-name req = write_all-name (writes_of file req.name) (untouched req)

  not_ready : (e : PrefetchEntry) → e.ready ≡ false → e.ready ≢ true
  not_ready e h ready = cc

  HasOutcome : PrefetchEntry → Type 0
  HasOutcome e = (req : Request) × (outcome file req ≡ e)

  in_queue :
      (i : ℕ) (e : PrefetchEntry) (reqs : List Request)
      → e.ready ≡ true
      → get_elem? (map untouched reqs) i ≡ some e
      → HasOutcome e
  in_queue i e reqs ready there =
      let (req, same) = get_elem?-map untouched reqs i e there in
      absurd (not_ready e (ap (λ x. x.ready) (sym same)) ready)

  -- An entry that is ready, of the request in work or of one in the queue.
  in_current :
      (w : Worker) (i : ℕ) (e : PrefetchEntry) (more : List Request)
      → IsRound file w
      → e.ready ≡ true
      → get_elem? (current w ++ map untouched more) i ≡ some e
      → HasOutcome e
  unfolding HasOutcome
  in_current absent i e more h ready there = in_queue i e more ready there
  in_current looking i e more h ready there = in_queue i e more ready there
  in_current waiting i e more h ready there = in_queue i e more ready there
  in_current ended i e more h ready there = in_queue i e more ready there
  in_current (serving req) i e more h ready there = in_queue i e (req ∷ more) ready there
  in_current (writing req done left) zero e more h ready there =
      let same : write_all done (untouched req) ≡ e = cc in
      let part = take-done done left (writes_of file req.name) h in
      let as_taken : write_all (take (length done) (writes_of file req.name)) (untouched req) ≡ e =
        ap (λ ws. write_all ws (untouched req)) (sym part) ∙ same in
      (req, sym (take-writes_of (length done) req (ap (λ x. x.ready) as_taken ∙ ready)) ∙ as_taken)
  in_current (writing req done left) (suc i) e more h ready there = in_queue i e more ready there

  -- An entry that is ready is that of a request, with its outcome.
  ready-HasOutcome :
      (s : Async) (h : IsFifo file s) (i : ℕ) (e : PrefetchEntry)
      → get_elem? s.entries i ≡ some e
      → e.ready ≡ true
      → HasOutcome e
  unfolding HasOutcome
  ready-HasOutcome s h i e there ready =
      elim (get_elem?-append (map (outcome file) h.served) _ i e
        (ap (λ es. get_elem? es i) (sym h.entries) ∙ there)) [
          | inl early ↦ get_elem?-map (outcome file) h.served i e early
          | inr (j, late) ↦ in_current s.worker j e s.queue h.stores ready late
        ]

  fill-read :
      (name : List ℕ) (e : PrefetchEntry) (t : ℕ) (bytes : List ℕ)
      → file.find name ≡ some t
      → file.read t 0 (file.tensor t).nbytes ≡ ok bytes
      → fill file name e ≡ record e {
        data_bytes = some bytes;
        bytes = (file.tensor t).nbytes;
        ready = true;
        error = false;
      }
  unfolding fill writes_of behind_read write_all
  fill-read name e t bytes found got = rw (found, writes_of) (rw got refl)

  Later-Reach : {cfg : _} {s t : Async} → Reach file cfg s → Later file s t → Reach file cfg t
  Later-Reach reach now = reach
  Later-Reach reach (on l turn) = next (Later-Reach reach l) turn

wait-ready :
    (e later : PrefetchEntry) (r : Result (Unit {0})) → wait e later ≡ some r → e.ready ≡ true
unfolding wait
wait-ready e later r h = elim (Bool-cases e.ready) [
  | inl ready ↦ ready
  | inr waits ↦ cc (rw (waits, wait) at h)
]

wait-ok :
    (e later : PrefetchEntry) → e.ready ≡ true → later.error ≡ false → wait e later ≡ some (ok tt)
unfolding wait
wait-ok e later ready fine = rw (ready, fine) refl

-- With a worker, over an open file of 1 to 2^64 - 1 bytes that can be mapped, in every interleaving of the sections of callers and the worker and
-- of the worker's stores into the entries: where `vg_tensor_wait` finds an entry ready in `s` and reads its
-- error in the same state or a later one, `t`, and the file has the name of the entry and places it, then
-- it returns success, and there the entry holds the bytes of that tensor in the file.
pub wait-content :
    (disk : Disk) (g : Handle) (cfg : Config) (io_workers : ℕ)
    → disk.maps ≡ true
    → 0 < g.file.file_size
    → g.file.file_size < 2 ^ 64
    → 0 < io_workers
    → {s t : Async} → Reach (reader_of disk g) (some (cfg, io_workers)) s
    → Later (reader_of disk g) s t
    → (i : ℕ) (e later : PrefetchEntry) (r : Result (Unit {0})) (x : ℕ)
    → get_elem? s.entries i ≡ some e
    → get_elem? t.entries i ≡ some later
    → wait e later ≡ some r
    → find_tensor g.file later.name ≡ some x
    → IsPlaced g.file ((reader_of disk g).tensor x)
    → (r ≡ ok tt)
      × (later.data_bytes ≡ some (content_of disk g ((reader_of disk g).tensor x)))
      × (later.bytes ≡ ((reader_of disk g).tensor x).nbytes)
unfolding HasOutcome
wait-content disk g cfg io_workers maps some_bytes word some_worker {s} {t} reach l i e later r x
      there there_later over found placed =
    let file = reader_of disk g in
    let h = Reach-IsWorked file cfg io_workers some_worker (Later-Reach file reach l) in
    let ready = wait-ready e later r over in
    let (z, at, still) = Later-IsReady file i l (e, there, ready) in
    let same_entry : z ≡ later = same_some z later (sym at ∙ there_later) in
    let (req, same) =
      ready-HasOutcome file t h.fifo i later there_later
        (ap (λ y. y.ready) (sym same_entry) ∙ still) in
    let name : req.name ≡ later.name = sym (outcome-name file req) ∙ ap (λ y. y.name) same in
    let read =
      gguf_read-total disk g (file.tensor x) 0 (file.tensor x).nbytes maps placed some_bytes word
        (omega arith) (omega arith) in
    let full =
      fill-read file req.name (untouched req) x _ (ap (find_tensor g.file) name ∙ found) read in
    let eq = sym same ∙ full in
    let said = wait-ok e later ready (ap (λ y. y.error) eq) in
    let place = g.file.data_base + (file.tensor x).data_offset in
    let from_start : place + 0 ≡ place = omega arith in
    (
      same_some r (ok tt) (sym over ∙ said),
      ap (λ y. y.data_bytes) eq
          ∙ ap (λ n. some (slice n (file.tensor x).nbytes disk.mapping)) from_start,
      ap (λ y. y.bytes) eq,
    )
