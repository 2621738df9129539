-- ===== src/Probe/Insert.antt =====
-- What an insertion at the first empty slot does to the runs, and that it keeps the table probed.
use etha_jhol.Common.{
  ℕ, zero, suc, ◌+◌, ◌≤◌, ◌<◌, ◌≡◌, ◌≢◌, inl, inr, refl, sym, ◌∙◌, ap, arith, Option, none, some,
  [], ◌∷◌, ◌++◌, Option-cases, Bool, true, Bool-cases,
}
use etha_jhol.Probe.Ring.{pos, next-pos, pos-zero, pos-injective}
use etha_jhol.Probe.Walk.{select, walk, write, FullBelow, FullBelow-suc, EmptyAt, IsProbed}
use native.Mathlib.Decide.{ℕ_discrete, dec_lt}

pub write_self {ℓ} : {V : Type ℓ} (at : ℕ → Option V) (e : ℕ) (v : V) → write at e v e ≡ some v
unfolding write
write_self at e v = ground arith

pub write_ne {ℓ} :
    {V : Type ℓ} (at : ℕ → Option V) (e : ℕ) (v : V) (i : ℕ) → i ≢ e → write at e v i ≡ at i
unfolding write
write_ne at e v i h = ground arith

module _ {ℓ} {V : Type ℓ} (n : ℕ) (home : V → ℕ) (at : ℕ → Option V) (probed : IsProbed n home at)
    (v : V) (home-lt : home v < n) (dist : ℕ) (empty : EmptyAt n at (home v) dist) where
  -- The slot that the insertion fills.
  abbrev slot : ℕ
  slot = pos n (home v) dist

  abbrev after : ℕ → Option V
  after = write at slot v

  injective : (s d : ℕ) → s < n → d < n → home v ≡ s → pos n s d ≡ slot → d ≡ dist
  injective s d hs hd same e =
      pos-injective n s d dist hs hd empty.below (e ∙ ap (λ (x : ℕ). pos n x dist) same)

  filled : (u : V) {i : ℕ} → after i ≡ some u → i ≡ slot → u ≡ v
  filled u found same = cc (write_self at slot v, ap after same)

  before :
      (u : V) (d : ℕ)
      → d < n
      → after (pos n (home u) d) ≡ some u
      → (k : ℕ) → k < d
      → at (pos n (home u) k) ≢ none
  before u d hd found k kd = elim (ℕ_discrete (pos n (home u) d) slot) [
    | yes same ↦
        let e : u ≡ v = filled u found same in
        let place = injective (home u) d (rw e home-lt) hd (ap home (sym e)) same in
        rw e (empty.full k (omega arith))
    | no other ↦ probed u d hd (sym (write_ne at slot v (pos n (home u) d) other) ∙ found) k kd
  ]

  -- The table stays probed.
  pub write-IsProbed : ((u : V) → home u < n) → IsProbed n home after
  write-IsProbed lt u d hd found k kd = elim (ℕ_discrete (pos n (home u) k) slot) [
    | yes same ↦ λ q. cc (write_self at slot v)
    | no other ↦ rw (write_ne at slot v (pos n (home u) k) other) (before u d hd found k kd)
  ]

  module _ (p : V → Bool) (s : ℕ) (hs : s < n) (supported : (u : V) → p u ≡ true → home u ≡ s) where
    -- If the new value passes the test, its slot is the first empty one from `s`.
    slot-first : p v ≡ true → (k : ℕ) → k < n → at (pos n s k) ≡ none → dist ≤ k
    slot-first hit k hk free = elim (dec_lt k dist) [
      | yes early ↦ absurd (empty.full k early (rw (supported v hit) free))
      | no late ↦ omega arith
    ]

    apart :
        p v ≡ true
        → (d : ℕ) → FullBelow n at s d
        → d < n
        → at (pos n s d) ≡ none
        → pos n s d ≢ slot
        → ⊥
    apart hit d full hd e other =
        let same = supported v hit in
        let le = slot-first hit d hd e in
        elim (ℕ_discrete d dist) [
          | yes q ↦ other (ap (λ (x : ℕ). pos n s x) q ∙ ap (λ (x : ℕ). pos n x dist) (sym same))
          | no q ↦ full dist (omega arith) (rw (← same) empty.free)
        ]

    -- Behind an empty slot of the run from `s` nothing passes the test.
    select-walk_behind :
        (fuel d k : ℕ)
        → k < d
        → d + fuel ≡ n
        → at (pos n s k) ≡ none
        → select p (walk n after fuel (pos n s d)) ≡ []
    unfolding select walk
    select-walk_behind zero d k kd hd free = refl
    select-walk_behind (suc fuel) d k kd hd free =
        let rest = select-walk_behind fuel (d + 1) k (omega arith) (omega arith) free in
        let step = next-pos n s d hs (omega arith) in
        elim (ℕ_discrete (pos n s d) slot) [
          | yes same ↦ elim (Bool-cases (p v)) [
            | inr miss ↦ rw (ap after same ∙ write_self at slot v, walk, miss, step) rest
            | inl hit ↦
                let place = injective s d hs (omega arith) (supported v hit) same in
                absurd (omega (arith, slot-first hit k (omega arith) free))
          ]
          | no other ↦ elim (Option-cases (at (pos n s d))) [
            | inl e ↦ rw (write_ne at slot v (pos n s d) other, e, walk)
            | inr (u, e) ↦ elim (Bool-cases (p u)) [
              | inr miss ↦ rw (write_ne at slot v (pos n s d) other, e, walk, miss, step) rest
              | inl hit ↦
                  let same = supported u hit in
                  absurd (probed u d (omega arith) (rw same e) k kd (rw same free))
            ]
          ]
        ]

    -- The run from `s` grows by the new value at its end, as far as the test can see.
    select-walk_from :
        (fuel d : ℕ)
        → FullBelow n at s d
        → d + fuel ≡ n
        → select p (walk n after fuel (pos n s d))
          ≡ select p (walk n at fuel (pos n s d)) ++ select p (v ∷ [])
    unfolding select walk
    select-walk_from zero d full hd = elim (Bool-cases (p v)) [
      | inr miss ↦ rw miss
      | inl hit ↦
          absurd (full dist (omega (arith, empty.below)) (rw (← supported v hit) empty.free))
    ]
    select-walk_from (suc fuel) d full hd =
        let step = next-pos n s d hs (omega arith) in
        elim (Option-cases (at (pos n s d))) [
          | inr (u, e) ↦
              let rest =
                select-walk_from fuel (d + 1) (FullBelow-suc n at s d full e) (omega arith) in
              let kept = write_ne at slot v (pos n s d) (λ same. cc (empty.free)) in
              elim (Bool-cases (p u)) [
                | inl hit ↦ rw (kept, e, walk, hit, step) (ap (◌∷◌ u) rest)
                | inr miss ↦ rw (kept, e, walk, miss, step) rest
              ]
          | inl e ↦ elim (ℕ_discrete (pos n s d) slot) [
            | yes same ↦
                let behind = select-walk_behind fuel (d + 1) d (omega arith) (omega arith) e in
                rw (e, walk, ap after same ∙ write_self at slot v, step) (ground (arith, behind))
            | no other ↦
                rw (write_ne at slot v (pos n s d) other, e, walk)
                  (elim (Bool-cases (p v)) [
                    | inr miss ↦ rw miss
                    | inl hit ↦ absurd (apart hit d full (omega arith) e other)
                  ])
          ]
        ]

    -- What the test sees from its home gains the new value, behind all that was there.
    pub select-walk-write :
        select p (walk n after n s) ≡ select p (walk n at n s) ++ select p (v ∷ [])
    select-walk-write =
        rw (pos-zero n s hs) at (select-walk_from n 0 (λ k h. absurd (omega arith)) (omega arith))
