-- ===== src/Gguf/Read/Slices.antt =====
-- Whichever way a read takes, it gives the bytes of the file.
use etha_jhol.Common.{
  ℕ, zero, suc, ◌+◌, ◌-◌, ◌*◌, ◌/◌, ◌^◌, ◌<◌, ◌≤◌, ◌≡◌, inl, inr, refl, sym, ap, ◌∙◌, arith, true,
  ◌&&◌, ◌||◌, some, List, [], ◌∷◌, ltb, leb, if◌then◌else◌, length, take, drop, drop-drop, ltb→ge,
  ge→ltb, lt→ltb, le→leb, Bool-cases, Option-cases,
}
use etha_jhol.Common.Result.{io, ok, fail}
use etha_jhol.Gguf.File.Ranges.{IsPlaced}
use etha_jhol.Gguf.Layout.{Tensor, sub64}
use etha_jhol.Gguf.Read.{
  Disk, Handle, slice, place, gguf_map, read_direct, read_buffered, mapped_by_read, read_at,
  gguf_read,
}

-- The system's calls read the file whose bytes are given: a mapping shows them, `pread` gives bytes from
-- the offset on, at most as many as asked for, and a full `fread` those of the range.
pub record Reads (disk : Disk) (bytes : List ℕ) : Type 0 where
  pub mapping : disk.mapping ≡ bytes
  pub pread :
      (offset size : ℕ) (got : List ℕ)
      → disk.pread offset size ≡ some got
      → (k : ℕ) × (k ≤ size) × (got ≡ slice offset k bytes)
  pub fread :
      (offset size : ℕ) (got : List ℕ)
      → disk.fread offset size ≡ some got
      → got ≡ slice offset size bytes

take-take : (n k : ℕ) (xs : List ℕ) → n ≤ length (take k xs) → take n (take k xs) ≡ take n xs
take-take zero k xs h = refl
take-take (suc n) zero xs h = absurd (omega arith)
take-take (suc n) (suc k) [] h = refl
take-take (suc n) (suc k) (x ∷ xs) h = ap (λ ys. x ∷ ys) (take-take n k xs (omega arith))

-- A slice of a prefix that is long enough.
pub take-drop-take :
    (n skip k : ℕ) (xs : List ℕ)
    → skip + n ≤ length (take k xs)
    → take n (drop skip (take k xs)) ≡ take n (drop skip xs)
take-drop-take n zero k xs h = take-take n k xs (omega arith)
take-drop-take n (suc skip) zero xs h = absurd (omega arith)
take-drop-take n (suc skip) (suc k) [] h = refl
take-drop-take n (suc skip) (suc k) (x ∷ xs) h = take-drop-take n skip k xs (omega arith)

module _ {disk : Disk} {bytes : List ℕ} (reads : Reads disk bytes) where
  from_sectors :
      (abs start n size : ℕ) (buffer got : List ℕ)
      → start ≤ abs
      → disk.pread start size ≡ some buffer
      → (if ltb (length buffer) (abs - start + n)
          then fail io
          else ok (take n (drop (abs - start) buffer)))
        ≡ ok got
      → got ≡ slice abs n bytes
  from_sectors abs start n size buffer got before e h =
      let (k, small, same) = reads.pread start size buffer e in
      elim (Bool-cases (ltb (length buffer) (abs - start + n))) [
        | inl short ↦ cc (rw short at h)
        | inr long ↦
            let long' : abs - start + n ≤ length (take k (drop start bytes)) =
              rw (sym same) (ltb→ge _ _ long) in
            let back : start + (abs - start) ≡ abs = omega (arith, before) in
            let taken : take n (drop (abs - start) buffer) ≡ got = cc (rw long at h) in
            sym taken
            ∙ ap (λ b. take n (drop (abs - start) b)) same
            ∙ take-drop-take n (abs - start) k (drop start bytes) long'
            ∙ ap (take n) (drop-drop (abs - start) start bytes)
            ∙ ap (λ i. take n (drop i bytes)) back
      ]

  read_direct-slice :
      (abs n : ℕ) (got : List ℕ) → read_direct disk abs n ≡ ok got → got ≡ slice abs n bytes
  unfolding read_direct
  read_direct-slice abs n got h = elim (Bool-cases disk.opens_direct) [
    | inl o ↦
        elim (Option-cases
          (disk.pread (abs / 512 * 512) ((n + (abs - abs / 512 * 512) + 512 - 1) / 512 * 512))) [
            | inl e ↦ cc (h, o, e)
            | inr (b, e) ↦
                from_sectors abs (abs / 512 * 512) n _ b got (omega arith) e
                  (rw (read_direct, o, e) at h)
          ]
    | inr o ↦ cc (h, o)
  ]

  read_buffered-slice :
      (abs n : ℕ) (got : List ℕ) → read_buffered disk abs n ≡ ok got → got ≡ slice abs n bytes
  unfolding read_buffered
  read_buffered-slice abs n got h = elim (Option-cases (disk.fread abs n)) [
    | inl e ↦ cc (h, e)
    | inr (b, e) ↦ reads.fread abs n got (cc (h, e))
  ]

  read_at-slice :
      (g : Handle) (abs n : ℕ) (got : List ℕ)
      → read_at disk g abs n ≡ ok got
      → got ≡ slice abs n bytes
  unfolding read_at
  read_at-slice g abs n got h =
      elim (Bool-cases
        (g.mapped && leb abs g.file.file_size && leb n (sub64 g.file.file_size abs))) [
          | inl m ↦ from_mapping (rw (read_at, m) at h)
          | inr m ↦ elim (Bool-cases g.direct_io) [
            | inl d ↦ read_direct-slice abs n got (rw (read_at, m, d) at h)
            | inr d ↦ read_buffered-slice abs n got (rw (read_at, m, d) at h)
          ]
        ]
    where
      from_mapping : ok (slice abs n disk.mapping) ≡ ok got → got ≡ slice abs n bytes
      from_mapping e =
          let e' : slice abs n disk.mapping ≡ got = cc e in sym e' ∙ ap (slice abs n) reads.mapping

  -- Where the system's calls read the file, a read of a tensor that succeeds stays inside the tensor
  -- and gives the file's bytes at its place, through the mapping, whole sectors, or the stream.
  pub gguf_read-slice :
      (g : Handle) (t : Tensor) (off n : ℕ) (got : List ℕ)
      → (gguf_read disk g t off n).1 ≡ ok got
      → (off ≤ t.nbytes) × (n ≤ t.nbytes - off) × (got ≡ slice (place g.file t off) n bytes)
  unfolding gguf_read
  gguf_read-slice g t off n got h = elim (Bool-cases (ltb t.nbytes off || ltb (t.nbytes - off) n)) [
    | inl out ↦ cc (rw (gguf_read, out) at h)
    | inr inside ↦ (
      ltb→ge t.nbytes off (ground (arith, inside)),
      ltb→ge (t.nbytes - off) n (ground (arith, inside)),
      read_at-slice (mapped_by_read disk g) (place g.file t off) n got
          (rw (gguf_read, inside) at h),
    )
  ]

mapped_by_read-maps :
    (disk : Disk) (g : Handle)
    → disk.maps ≡ true
    → 0 < g.file.file_size
    → ((mapped_by_read disk g).mapped ≡ true) × ((mapped_by_read disk g).file ≡ g.file)
unfolding mapped_by_read gguf_map
mapped_by_read-maps disk g maps some_bytes =
    let nonempty = lt→ltb 0 g.file.file_size some_bytes in
    elim (Bool-cases g.mapped) [
      | inl m ↦ (rw (mapped_by_read, m) refl, rw (mapped_by_read, m) refl)
      | inr m ↦ (
        rw (mapped_by_read, gguf_map, m, nonempty, maps) refl,
        rw (mapped_by_read, gguf_map, m, nonempty, maps) refl,
      )
    ]

-- Where the file can be mapped, every read inside a tensor that the open file places succeeds, with
-- the bytes of the mapping at the place of the tensor.
pub gguf_read-total :
    (disk : Disk) (g : Handle) (t : Tensor) (off n : ℕ)
    → disk.maps ≡ true
    → IsPlaced g.file t
    → 0 < g.file.file_size
    → g.file.file_size < 2 ^ 64
    → off ≤ t.nbytes
    → n ≤ t.nbytes - off
    → (gguf_read disk g t off n).1
      ≡ ok (slice (g.file.data_base + t.data_offset + off) n disk.mapping)
unfolding gguf_read read_at
gguf_read-total disk g t off n maps placed some_bytes small before room =
    let inside = placed.inside in
    let abs = g.file.data_base + t.data_offset + off in
    let (mapped, same) = mapped_by_read-maps disk g maps some_bytes in
    let there : place g.file t off ≡ abs = omega (arith, inside) in
    let left : n ≤ sub64 g.file.file_size abs = omega (arith, inside) in
    rw
      (
        gguf_read,
        ge→ltb t.nbytes off before,
        ge→ltb (t.nbytes - off) n room,
        read_at,
        mapped,
        same,
        there,
        le→leb abs g.file.file_size (omega (arith, inside)),
        le→leb n (sub64 g.file.file_size abs) left,
      )
      refl
