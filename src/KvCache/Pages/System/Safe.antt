-- ===== src/KvCache/Pages/System/Safe.antt =====
-- What holds in every system that can be reached.
use etha_jhol.Common.{
  ℕ, zero, suc, ◌+◌, ◌*◌, ◌/◌, ◌%◌, ◌<◌, ◌≡◌, refl, subst, arith, Bool, false, some, List, [], ◌∷◌,
  ◌++◌, length, leb, ◌==◌, ◌||◌, inl, inr, Bool-cases, All, get_elem?,
}
use etha_jhol.Common.Result.{ok}
use etha_jhol.Quant.{u64}
use etha_jhol.KvCache.Pages.{
  Config, Store, Sequence, PagePtr, page_bytes, kv_open, close, store_page, page_acquire, pages_for,
}
use etha_jhol.KvCache.Pages.System.{System, Reach, Stays, IsPaged, IsCounted}
use etha_jhol.KvCache.Pages.System.Counts.{IsValidPtr, load-some, for_each-drop}
use etha_jhol.KvCache.Pages.System.Keeps.{Step-IsCounted}
use etha_jhol.KvCache.Pages.System.Held.{All-split}
use etha_jhol.KvCache.Pages.Size.{pages_for_mono, pages_for-suc}

All-get {ℓ κ} :
    {A : Type ℓ} {P : A → Type κ} (xs : List A) (i : ℕ)
    → i < length xs
    → All P xs
    → (x : A) × (get_elem? xs i ≡ some x) × P x
All-get [] i h all = absurd (omega arith)
All-get (x ∷ xs) zero h (p, ps) = (x, refl, p)
All-get (x ∷ xs) (suc i) h (p, ps) = All-get xs i (omega arith) ps

ok-injective : (s t : Store) → ok s ≡ ok t → s ≡ t
ok-injective s t e = cc

kv_open-IsCounted :
    (c : Config) (array : ℕ) (s : Store)
    → kv_open c array ≡ ok s
    → c.host_budget_bytes ≡ 0
    → IsCounted (record { store = s; sequences = [] })
unfolding kv_open
kv_open-IsCounted c array s opened no_budget =
    let zeros =
      (c.n_layers == 0) || ((c.kv_heads == 0) || ((c.head_dim == 0) || (c.element_bytes == 0))) in
    elim (Bool-cases (c.page_tokens == 0)) [
      | inl bad ↦ cc (rw (bad, kv_open) at opened)
      | inr tokens ↦ (elim (Bool-cases zeros) [
        | inl bad ↦ cc (rw (tokens, bad, kv_open) at opened)
        | inr good ↦ (elim (Bool-cases (page_bytes c == 0)) [
          | inl bad ↦ cc (rw (tokens, good, bad, kv_open) at opened)
          | inr bytes ↦
              let same = ok-injective _ s (rw (tokens, good, bytes, kv_open) at opened) in
              subst (λ z. IsCounted (record { store = z; sequences = [] })) same
                (record {
                  no_budget = no_budget;
                  some_tokens = ground arith;
                  refs = λ i. refl;
                  paged = tt;
                })
        ])
      ])
    ]

module _ (c : Config) (array : ℕ) (start : Store) (opened : kv_open c array ≡ ok start)
    (no_budget : c.host_budget_bytes ≡ 0) where
  -- Without a host budget: in every system that new sequences, appends, forks, closes and acquired pages
  -- lead to, with no growth on the way having moved the array of pages, each page has as many references
  -- as the sequences hold pointers to it, every pointer leads to a page, and a sequence has just the
  -- pages that its tokens take.
  pub Reach-IsCounted : {x : System} (r : Reach start x) → Stays r → IsCounted x
  Reach-IsCounted Reach.here stays = kv_open-IsCounted c array start opened no_budget
  Reach-IsCounted (Reach.next r step) (before, now) =
      Step-IsCounted step now (Reach-IsCounted r before)

  -- In every such system, closing a sequence goes through no stray pointer.
  pub close-IsSafe :
      (x : System)
      → (r : Reach start x) → Stays r
      → (before after : List Sequence) (q : Sequence) → x.sequences ≡ before ++ q ∷ after
      → (s : Store) × (close q x.store ≡ some s)
  unfolding close
  close-IsSafe x r stays before after q found =
      let h = Reach-IsCounted r stays in
      let (hb, hq, ha) =
        All-split (IsPaged x.store) before q after (subst (All (IsPaged x.store)) found h.paged) in
      let (s, ran, k) = for_each-drop q.pages x.store hq.valid in (s, ran)

  -- Without a host budget: in every system that new sequences, appends, forks, closes and acquired pages
  -- lead to, with no growth on the way having moved the array of pages, for every layer there is and every
  -- token of one of its sequences, acquiring the page of the token succeeds, through a pointer that leads
  -- to a page.
  pub page_acquire-IsSafe :
      (x : System)
      → (r : Reach start x) → Stays r
      → (before after : List Sequence) (q : Sequence) (layer token : ℕ) (on_device : Bool)
      → x.sequences ≡ before ++ q ∷ after
      → layer < x.store.cfg.n_layers
      → token < length q.tokens
      → (at : PagePtr × ℕ × ℕ) × (s : Store) × (page_acquire q layer token on_device x.store
          ≡ some (ok at, s))
        × IsValidPtr x.store at.0
  unfolding page_acquire pages_for
  page_acquire-IsSafe x r stays before after q layer token on_device found in_layers in_tokens =
      let h = Reach-IsCounted r stays in
      let (hb, hq, ha) =
        All-split (IsPaged x.store) before q after (subst (All (IsPaged x.store)) found h.paged) in
      let i = token / x.store.cfg.page_tokens in
      let below : i < length q.pages = omega (
        arith,
        hq.size,
        pages_for-suc x.store.cfg h.some_tokens token,
        pages_for_mono x.store.cfg h.some_tokens (token + 1) (length q.tokens) (omega arith),
      ) in
      let (ptr, has, valid) = All-get q.pages i below hq.valid in
      let (p, loaded, refs) = load-some ptr x.store valid in
      let low : leb x.store.cfg.n_layers layer ≡ false = ground arith in
      let inside : leb (length q.tokens) token ≡ false = ground arith in
      let c = x.store.cfg in
      let bytes = c.kv_heads * c.head_dim % u64 * c.element_bytes % u64 * c.page_tokens % u64 in
      let clock = (x.store.clock + 1) % u64 in
      (
        (ptr, layer * bytes % u64, bytes),
        store_page (record x.store { clock = clock; page_hits = (x.store.page_hits + 1) % u64 })
            ptr.1 (record p { age = clock; on_device = on_device }),
        rw (low, page_acquire) (rw inside (rw has (rw loaded refl))),
        valid,
      )
