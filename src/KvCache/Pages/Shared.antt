-- ===== src/KvCache/Pages/Shared.antt =====
-- The page that a fork of src/kv_cache.c shares with its source and writes on.
use etha_jhol.Common.{
  ℕ, zero, suc, ◌/◌, ◌%◌, ◌≤◌, ◌<◌, ◌≡◌, refl, sym, ap, ◌∙◌, subst, arith, false, Option, some,
  List, [], ◌∷◌, ◌++◌, length, length-take, leb, ltb, ltb→ge, inl, inr, Bool-cases, Option-cases,
  take, get_elem?,
}
use native.Mathlib.Nat.{div-add-mod', le-div_iff_mul-le}
use etha_jhol.Common.Result.{Result, ok}
use etha_jhol.KvCache.Pages.{
  Config, Store, Sequence, PagePtr, load, store_page, page_retain, for_each, pages_for, fork,
  append,
}
use etha_jhol.KvCache.Pages.Size.{pages_for_mono}
use etha_jhol.KvCache.Pages.System.{IsPaged}

get_elem?-take {ℓ} :
    {A : Type ℓ} (n i : ℕ) (xs : List A) → i < n → get_elem? (take n xs) i ≡ get_elem? xs i
get_elem?-take zero i xs h = absurd (omega arith)
get_elem?-take (suc n) i [] h = refl
get_elem?-take (suc n) zero (x ∷ xs) h = refl
get_elem?-take (suc n) (suc i) (x ∷ xs) h = get_elem?-take n i xs (omega arith)

some-injective : (s t : Store) → some s ≡ some t → s ≡ t
some-injective s t e = cc

page_retain-cfg : (p : PagePtr) (s s' : Store) → page_retain p s ≡ some s' → s'.cfg ≡ s.cfg
unfolding page_retain store_page
page_retain-cfg p s s' ran = elim (Option-cases (load s p)) [
  | inl stray ↦ cc (rw (stray, page_retain) at ran)
  | inr (x, found) ↦
      ap (λ (t : Store). t.cfg) (sym (some-injective _ s' (rw (found, page_retain) at ran)))
]

for_each-cfg :
    (ps : List PagePtr) (s s' : Store) → for_each page_retain ps s ≡ some s' → s'.cfg ≡ s.cfg
unfolding for_each
for_each-cfg [] s s' ran = ap (λ (t : Store). t.cfg) (sym (some-injective s s' ran))
for_each-cfg (p ∷ ps) s s' ran = elim (Option-cases (page_retain p s)) [
  | inl stray ↦ cc (rw (stray, for_each) at ran)
  | inr (s1, first) ↦
      for_each-cfg ps s1 s' (rw (first, for_each) at ran) ∙ page_retain-cfg p s s1 first
]

-- What a fork within its source gives.
pub fork-eq :
    (s s' : Store) (q : Sequence) (prefix : ℕ)
    → ltb (length q.tokens) prefix ≡ false
    → for_each page_retain (take (pages_for s.cfg prefix) q.pages) s ≡ some s'
    → fork q prefix s
      ≡ some (
        ok (record {
          tokens = take prefix q.tokens;
          pages = take (pages_for s.cfg prefix) q.pages;
        }),
        s',
      )
unfolding fork
fork-eq s s' q prefix within ran = rw (within, fork) (rw ran refl)

forked :
    (q r : Sequence) (s t : Store)
    → ◌≡◌ {A = Option (Result Sequence × Store)} (some (ok q, s)) (some (ok r, t))
    → (q ≡ r) × (s ≡ t)
forked q r s t e = (cc, cc)

-- The page of a token that its sequence cuts off in the middle of a page.
cut_page :
    (c : Config) (prefix : ℕ)
    → 0 < prefix % c.page_tokens
    → 0 < c.page_tokens
    → prefix / c.page_tokens < pages_for c prefix
unfolding pages_for
cut_page c prefix cut pos =
    (le-div_iff_mul-le pos).1 (omega (arith, div-add-mod' prefix c.page_tokens))

module _ (realloc : ℕ → ℕ) where
  -- What the fork shares: `r` is appended to without a new page.
  abbrev pub Shares : Store → Store → Sequence → ℕ → ℕ → Sequence → Type 0
  Shares s s' q prefix token r =
      (append realloc r token s' ≡ (ok (record r { tokens = r.tokens ++ token ∷ [] }), s'))
      × (length r.tokens ≡ prefix)
      × (get_elem? r.pages (prefix / s.cfg.page_tokens)
          ≡ get_elem? q.pages (prefix / s.cfg.page_tokens))

  cut-Shares :
      (s s' : Store) (q : Sequence) (prefix token : ℕ)
      → IsPaged s q
      → 0 < s.cfg.page_tokens
      → 0 < prefix % s.cfg.page_tokens
      → prefix ≤ length q.tokens
      → s'.cfg ≡ s.cfg
      → Shares s s' q prefix token
          (record { tokens = take prefix q.tokens; pages = take (pages_for s.cfg prefix) q.pages })
  unfolding append
  cut-Shares s s' q prefix token h pos cut within cfg =
      let n = pages_for s.cfg prefix in
      let here : prefix / s.cfg.page_tokens < n = cut_page s.cfg prefix cut pos in
      let tokens : length (take prefix q.tokens) ≡ prefix =
        length-take prefix q.tokens ∙ omega arith in
      let pages : length (take n q.pages) ≡ n =
        length-take n q.pages
        ∙ omega (arith, h.size, pages_for_mono s.cfg pos prefix (length q.tokens) within) in
      let space : leb (length (take n q.pages)) (length (take prefix q.tokens) / s'.cfg.page_tokens)
          ≡ false =
        ap (λ k. leb (length (take n q.pages)) (k / s'.cfg.page_tokens)) tokens
        ∙ ap (λ c. leb (length (take n q.pages)) (prefix / c.page_tokens)) cfg
        ∙ ground (arith, pages, here) in
      (rw (space, append) refl, tokens, get_elem?-take n (prefix / s.cfg.page_tokens) q.pages here)

  -- Where a paged sequence is forked in the middle of a page, the next token that is appended to the fork
  -- takes no new page: it stands in the page that the source has for its own token at the same place.
  pub fork-Shares :
      (s s' : Store) (q q' : Sequence) (prefix token : ℕ)
      → IsPaged s q
      → 0 < s.cfg.page_tokens
      → 0 < prefix % s.cfg.page_tokens
      → fork q prefix s ≡ some (ok q', s')
      → Shares s s' q prefix token q'
  unfolding fork
  fork-Shares s s' q q' prefix token h pos cut done =
      let pages = take (pages_for s.cfg prefix) q.pages in
      elim (Bool-cases (ltb (length q.tokens) prefix)) [
        | inl beyond ↦ cc (rw (beyond, fork) at done)
        | inr within ↦ (elim (Option-cases (for_each page_retain pages s)) [
          | inl stray ↦ cc (rw (within, stray, fork) at done)
          | inr (s1, ran) ↦
              let eq = fork-eq s s1 q prefix within ran in
              let cfg = for_each-cfg pages s s1 ran in
              let done' : ◌≡◌ {A = Option (Result Sequence × Store)}
                  (some (ok (record { tokens = take prefix q.tokens; pages = pages }), s1))
                  (some (ok q', s')) =
                sym eq ∙ done in
              let (same_q, same_s) = forked _ _ s1 s' done' in
              subst (λ t. Shares s t q prefix token q') same_s
                (subst (λ r. Shares s s1 q prefix token r) same_q
                  (cut-Shares s s1 q prefix token h pos cut (ltb→ge _ _ within) cfg))
        ])
      ]
