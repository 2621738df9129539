-- ===== src/TensorSource/Tickets.antt =====
-- Which references a release gives back.
use etha_jhol.Common.{
  ℕ, zero, suc, ◌+◌, ◌-◌, ◌%◌, ◌^◌, ◌<◌, ◌≤◌, ◌≡◌, inl, inr, refl, ◌∙◌, arith, false, some, List,
  [], ◌∷◌, ◌++◌, leb, ◌==◌, ==_refl, length, set, get_elem?, Bool-cases, Option-cases, All,
}
use etha_jhol.Common.Result.{ok}
use etha_jhol.Quant.{u64}
use etha_jhol.TensorSource.Cache.{
  Tier, Entry, Source, remove_entry, next_victim, evict_rounds, evict_for,
}
use etha_jhol.TensorSource.Kept.{All-set, All-get, evict_for-All}
use etha_jhol.TensorSource.Lease.{
  Lease, buffer, acquire_hit, keep, new_entry, lease_of, release_in, release,
}

release_in-other :
    (lease : Lease) (es : List Entry)
    → All (λ e. (e.ticket == lease.ticket) ≡ false) es
    → release_in lease es ≡ es
unfolding release_in
release_in-other lease [] h = refl
release_in-other lease (e ∷ es) (here, rest) =
    rw (release_in, here, release_in-other lease es rest) refl

-- The entry in slot `i`, as a hit leaves it.
abbrev pub held_again : Source → Entry → Entry
held_again s e = record e { refs = (e.refs + 1) % u64; age = (s.clock + 1) % u64 }

-- The lease that a hit on slot `i` gives.
abbrev hit_lease : ℕ → ℕ → Entry → Lease
hit_lease t i e = record {
  tensor = t;
  place = buffer e.data_bytes;
  size = e.bytes;
  tier = e.tier;
  ticket = suc i;
}

-- Where no entry has the ticket i + 1, as it is once entries in front of slot i were evicted, a hit
-- on slot i succeeds, and the release of the lease that it gives leaves the reference that it took.
pub acquire_hit-leaks :
    (s : Source) (t i : ℕ) (e : Entry)
    → get_elem? s.entries i ≡ some e
    → All (λ x. (x.ticket == suc i) ≡ false) s.entries
    → (lease : Lease) × ((acquire_hit s t i e).1 ≡ ok lease)
      × ((release (acquire_hit s t i e).0 lease).entries ≡ set s.entries i (held_again s e))
unfolding acquire_hit release
acquire_hit-leaks s t i e at foreign =
    let ticketed : (suc i == 0) ≡ false = ground arith in
    (
      hit_lease t i e,
      refl,
      rw (release, ticketed)
          (release_in-other (hit_lease t i e) (set s.entries i (held_again s e)) (
            All-set (λ x. (x.ticket == suc i) ≡ false) s.entries i (held_again s e)
              (All-get (λ x. (x.ticket == suc i) ≡ false) s.entries i foreign at) foreign)),
    )

release_in-last :
    (lease : Lease) (es : List Entry) (e : Entry)
    → All (λ x. (x.ticket == lease.ticket) ≡ false) es
    → e.ticket ≡ lease.ticket
    → e.tensor ≡ lease.tensor
    → release_in lease (es ++ e ∷ []) ≡ es ++ record e { refs = e.refs - 1 } ∷ []
unfolding release_in
release_in-last lease [] e h ticket tensor =
    rw (release_in, ticket, tensor, ==_refl lease.ticket, ==_refl lease.tensor) refl
release_in-last lease (x ∷ es) e (here, rest) ticket tensor =
    rw (release_in, here, release_in-last lease es e rest ticket tensor) refl

evict_rounds-next_ticket :
    (fuel need : ℕ) (s : Source) → (evict_rounds fuel need s).next_ticket ≡ s.next_ticket
unfolding evict_rounds remove_entry
evict_rounds-next_ticket zero need s = refl
evict_rounds-next_ticket (suc fuel) need s =
    elim (Option-cases (next_victim s.cfg.host_budget_bytes need s.entries)) [
      | inl e ↦ rw (evict_rounds, e) refl
      | inr (i, e) ↦
          rw (evict_rounds, e) (evict_rounds-next_ticket fuel need (remove_entry s i) ∙ same i)
    ]
  where
    same : (i : ℕ) → (remove_entry s i).next_ticket ≡ s.next_ticket
    same i = elim (Bool-cases (leb (length s.entries) i)) [
      | inl out ↦ rw (remove_entry, out) refl
      | inr inside ↦ rw (remove_entry, inside) refl
    ]

evict_for-next_ticket : (s : Source) (need : ℕ) → (evict_for s need).next_ticket ≡ s.next_ticket
unfolding evict_for
evict_for-next_ticket s need = elim (Bool-cases (s.cfg.host_budget_bytes == 0)) [
  | inl off ↦ rw (evict_for, off) refl
  | inr on ↦ rw (evict_for, on) (evict_rounds-next_ticket (length s.entries) need s)
]

other_tickets :
    {bound ticket : ℕ} (es : List Entry)
    → All (λ x. x.ticket ≤ bound) es
    → bound < ticket
    → All (λ x. (x.ticket == ticket) ≡ false) es
other_tickets [] h less = tt
other_tickets (e ∷ es) (here, rest) less = (ground (arith, here, less), other_tickets es rest less)

-- Where no entry has a ticket behind the last one given out, and tickets do not wrap around, a tensor
-- that a miss has put into the cache and whose lease is given back stands behind the entries that
-- the eviction left, with no reference to it.
pub keep-release :
    (s : Source) (t : ℕ) (tier : Tier) (bytes : List ℕ) (n budget : ℕ)
    → All (λ x. x.ticket ≤ s.next_ticket) s.entries
    → s.next_ticket + 1 < 2 ^ 64
    → (lease : Lease) × ((keep s t tier bytes n budget).1 ≡ ok lease)
      × ((e : Entry) × (e.refs ≡ 0)
          × (e.tensor ≡ t)
          × (e.data_bytes ≡ bytes)
          × ((release (keep s t tier bytes n budget).0 lease).entries
              ≡ (evict_for s n).entries ++ e ∷ []))
unfolding keep release
keep-release s t tier bytes n budget old small =
    let s₁ = evict_for s n in
    let e = new_entry s₁ t tier bytes n in
    let next : s₁.next_ticket ≡ s.next_ticket = evict_for-next_ticket s n in
    let fresh : All (λ x. (x.ticket == e.ticket) ≡ false) s₁.entries =
      other_tickets s₁.entries (evict_for-All (λ x. x.ticket ≤ s.next_ticket) s n old)
        (omega (arith, next, small)) in
    let ticketed : (e.ticket == 0) ≡ false = ground (arith, next, small) in
    (
      lease_of e,
      refl,
      (
        record e { refs = 0 },
        refl,
        refl,
        refl,
        rw (release, ticketed) (release_in-last (lease_of e) s₁.entries e fresh refl refl),
      ),
    )
