-- ===== src/TensorSource/Stream.antt =====
-- `vg_tensor_stream`: the loop over the chunks of a tensor.
pub mod Chunks
use etha_jhol.Common.{
  ℕ, zero, suc, ◌+◌, ◌-◌, ◌%◌, ◌^◌, ◌<◌, ◌≤◌, ◌≡◌, refl, sym, ap, ◌∙◌, subst, arith, Bool, true,
  false, Option, none, some, List, [], ◌∷◌, ◌++◌, ltb, leb, ◌==◌, if◌then◌else◌, length, take, drop,
  concat, lt→ltb, ge→ltb, map,
}
use etha_jhol.Common.Result.{Status, invalid, Result, ok, fail}
use etha_jhol.Gguf.Layout.{Tensor}
use etha_jhol.Gguf.Read.{slice}
use etha_jhol.TensorSource.Cache.{Source}
use etha_jhol.TensorSource.Lease.{Reader}

-- What `consume` is called with.
pub record Chunk : Type 0 where
  pub bytes : List ℕ
  pub offset : ℕ

-- `(t->nbytes - off) < chunk ? (t->nbytes - off) : chunk`
abbrev pub chunk_at : ℕ → ℕ → ℕ → ℕ
chunk_at nbytes off chunk = if ltb (nbytes - off) chunk then nbytes - off else chunk

-- A chunk is consumed, and the loop goes on unless that fails.
abbrev pub after {ℓ} :
    {State : Type ℓ}
    → State × Option Status
    → (State → State × Option Status)
    → State × Option Status
after (user, some st) rest = (user, some st)
after (user, none) rest = rest user

module _ {State : Type 0} (file : Reader) (consume : Chunk → State → State × Option Status) where
  -- The loop, with `left` rounds at most: the state of the consumer, and the status, `none` for
  -- `VG_OK`.
  unfoldable pub stream_from : ℕ → ℕ → ℕ → ℕ → State → State × Option Status
  stream_from zero t chunk off user = (user, none)
  stream_from (suc left) t chunk off user =
      let n = chunk_at (file.tensor t).nbytes off chunk in
      let round : Result (List ℕ) → State × Option Status = λ r. elim r [
        | fail st ↦ (user, some st)
        | ok bytes ↦
            after (consume (record { bytes = bytes; offset = off }) user)
              (stream_from left t chunk (off + n))
      ] in
      if ltb off (file.tensor t).nbytes then round (file.read t off n) else (user, none)

  -- `vg_tensor_stream`: each round takes at least one byte.
  unfoldable pub tensor_stream : Source → List ℕ → ℕ → State → State × Option Status
  unfolding stream_from
  tensor_stream s name chunk user = elim (file.find name) [
    | none ↦ (user, some invalid)
    | some t ↦
        stream_from (file.tensor t).nbytes t (if chunk == 0 then s.cfg.io_chunk_bytes else chunk) 0
          user
  ]
