-- ===== src/TensorSource/Stream/Chunks.antt =====
-- The chunks of a stream, laid end to end, are the tensor.
use etha_jhol.Common.{
  ℕ, zero, suc, ◌+◌, ◌-◌, ◌<◌, ◌≤◌, ◌≡◌, inl, inr, refl, sym, subst, arith, Option, none, some,
  List, [], ◌∷◌, ◌++◌, ltb, ◌==◌, if◌then◌else◌, length, drop, drop-drop, length-take, length-drop,
  take-append-drop, Bool-cases, ltb→lt, ltb→ge,
}
use etha_jhol.Common.Result.{Status, ok}
use etha_jhol.Gguf.Read.{slice}
use etha_jhol.TensorSource.Cache.{Source}
use etha_jhol.TensorSource.Lease.{Reader}
use etha_jhol.TensorSource.Stream.{Chunk, chunk_at, after, stream_from, tensor_stream}

-- The consumer is called with each chunk in turn, until it fails.
abbrev pub feed :
    {State : Type 0}
    → (Chunk → State → State × Option Status)
    → List Chunk
    → State
    → State × Option Status
feed consume [] user = (user, none)
feed consume (c ∷ cs) user = after (consume c user) (feed consume cs)

-- Chunks of 1 to `chunk` bytes each, from `off` on without a gap, which make up the content.
abbrev pub IsSplit : ℕ → ℕ → List ℕ → List Chunk → Type 0
IsSplit chunk off content [] = content ≡ []
IsSplit chunk off content (c ∷ cs) =
    (c.offset ≡ off)
    × (0 < length c.bytes)
    × (length c.bytes ≤ chunk)
    × ((rest : List ℕ) × (content ≡ c.bytes ++ rest) × IsSplit chunk (off + length c.bytes) rest cs)

after-same :
    {State : Type 0} (r : State × Option Status) {f g : State → State × Option Status}
    → ((user : State) → f user ≡ g user)
    → after r f ≡ after r g
after-same (user, some st) h = refl
after-same (user, none) h = h user

pub length-slice : (off n : ℕ) (xs : List ℕ) → off + n ≤ length xs → length (slice off n xs) ≡ n
length-slice off n xs h = omega (arith, length-take n (drop off xs), length-drop off xs)

slice-end : (off : ℕ) (xs : List ℕ) → length xs ≤ off → drop off xs ≡ []
slice-end zero [] h = refl
slice-end zero (x ∷ xs) h = absurd (omega arith)
slice-end (suc off) [] h = refl
slice-end (suc off) (x ∷ xs) h = slice-end off xs (omega arith)

chunk_at-bounds :
    (nbytes off chunk : ℕ)
    → 0 < chunk
    → off < nbytes
    → (0 < chunk_at nbytes off chunk)
      × (chunk_at nbytes off chunk ≤ chunk)
      × (off + chunk_at nbytes off chunk ≤ nbytes)
chunk_at-bounds nbytes off chunk some_bytes more = elim (Bool-cases (ltb (nbytes - off) chunk)) [
  | inl last ↦ rw last (omega arith, omega (arith, ltb→lt (nbytes - off) chunk last), omega arith)
  | inr full ↦ rw full (some_bytes, omega arith, omega (arith, ltb→ge (nbytes - off) chunk full))
]

module _ {State : Type 0} (file : Reader) (consume : Chunk → State → State × Option Status) (t : ℕ)
    (content : List ℕ) (whole : length content ≡ (file.tensor t).nbytes)
    (reads : (off n : ℕ)
      → off + n ≤ (file.tensor t).nbytes
      → file.read t off n ≡ ok (slice off n content)) where
  stream_from-chunks :
      (left chunk off : ℕ)
      → 0 < chunk
      → (file.tensor t).nbytes - off ≤ left
      → (cs : List Chunk) × ((user : State)
          → stream_from file consume left t chunk off user ≡ feed consume cs user)
        × IsSplit chunk off (drop off content) cs
  unfolding stream_from
  stream_from-chunks zero chunk off some_bytes enough =
      ([], (λ user. refl), slice-end off content (omega (arith, whole)))
  stream_from-chunks (suc left) chunk off some_bytes enough =
      elim (Bool-cases (ltb off (file.tensor t).nbytes)) [
        | inr ended ↦ (
          [],
          (λ user. rw (stream_from, ended) refl),
          slice-end off content (omega (arith, whole, ltb→ge off (file.tensor t).nbytes ended)),
        )
        | inl more ↦
            let n = chunk_at (file.tensor t).nbytes off chunk in
            let (least, most, inside) =
              chunk_at-bounds (file.tensor t).nbytes off chunk some_bytes (ltb→lt off _ more) in
            let (cs, same, split) =
              stream_from-chunks left chunk (off + n) some_bytes (omega (arith, least, enough)) in
            let here = slice off n content in
            let size : length here ≡ n =
              length-slice off n content (omega (arith, inside, whole)) in
            (
              record { bytes = here; offset = off } ∷ cs,
              (λ user.
                  rw (stream_from, more, reads off n inside)
                    (after-same (consume (record { bytes = here; offset = off }) user) same)),
              (
                refl,
                omega (arith, size, least),
                omega (arith, size, most),
                (
                  drop n (drop off content),
                  sym (take-append-drop n (drop off content)),
                  subst (λ xs. IsSplit chunk (off + length here) xs cs)
                      (sym (drop-drop n off content))
                      (subst (λ k. IsSplit chunk (off + k) (drop (off + n) content) cs) (sym size)
                        split),
                ),
              ),
            )
      ]

  -- Where reads of a tensor give the slices of its content, `vg_tensor_stream` hands the consumer the
  -- whole content in chunks, in order and without a gap, each of 1 to `chunk` bytes (or the size of
  -- the configuration, for a `chunk` of 0, where that is not 0), until the consumer fails.
  pub tensor_stream-chunks :
      (s : Source) (name : List ℕ) (chunk : ℕ)
      → file.find name ≡ some t
      → 0 < (if chunk == 0 then s.cfg.io_chunk_bytes else chunk)
      → (cs : List Chunk) × ((user : State)
          → tensor_stream file consume s name chunk user ≡ feed consume cs user)
        × IsSplit (if chunk == 0 then s.cfg.io_chunk_bytes else chunk) 0 content cs
  unfolding tensor_stream
  tensor_stream-chunks s name chunk found some_bytes =
      let size = if chunk == 0 then s.cfg.io_chunk_bytes else chunk in
      let (cs, same, split) =
        stream_from-chunks (file.tensor t).nbytes size 0 some_bytes (omega arith) in
      (cs, (λ user. rw (tensor_stream, found) (same user)), split)
