-- ===== src/KvCache/Pages/System/Acquire.antt =====
-- `vg_kv_page_acquire` changes no references.
use etha_jhol.Common.{
  ℕ, zero, suc, ◌/◌, ◌<◌, ◌≡◌, refl, sym, ap, ◌∙◌, subst, arith, Bool, Option, some, List, [], ◌∷◌,
  length, leb, ◌==◌, inl, inr, Bool-cases, Option-cases, All-map, get_elem?, ==_iff,
}
use etha_jhol.Common.Result.{Result}
use etha_jhol.KvCache.Pages.{Page, Store, Sequence, PagePtr, load, store_page, page_acquire}
use etha_jhol.KvCache.Pages.System.{IsPaged, IsCounted}
use etha_jhol.KvCache.Pages.System.Counts.{refs_at, HasRefs, store_page-HasRefs}
use etha_jhol.KvCache.Pages.System.Held.{IsPaged-later}

get_elem?-refs :
    (ps : List Page) (i : ℕ) (p : Page)
    → get_elem? ps i ≡ some p
    → (i < length ps) × (refs_at ps i ≡ p.refs)
get_elem?-refs [] i p h = cc
get_elem?-refs (q ∷ ps) zero p h = let same : q ≡ p = cc in (omega arith, ap (λ x. x.refs) same)
get_elem?-refs (q ∷ ps) (suc i) p h =
    let (lt, refs) = get_elem?-refs ps i p h in (omega arith, refs)

load-refs :
    (ptr : PagePtr) (s : Store) (p : Page)
    → load s ptr ≡ some p
    → (ptr.1 < length s.pages) × (refs_at s.pages ptr.1 ≡ p.refs)
unfolding load
load-refs ptr s p h = elim (Bool-cases (ptr.0 == s.array)) [
  | inl here ↦ get_elem?-refs s.pages ptr.1 p (rw (here, load) at h)
  | inr gone ↦ cc (rw (gone, load) at h)
]

unchanged : (s s' : Store) → s ≡ s' → HasRefs s s' (refs_at s.pages)
unchanged s s' same =
    subst (λ z. HasRefs s z (refs_at s.pages)) same
      (record { cfg = refl; array = refl; size = refl; refs = λ i. refl })

-- Writing a page with the same references, behind a change of the store's counters.
touched :
    (s : Store) (ptr : PagePtr) (p : Page) (clock hits age : ℕ) (on_device : Bool)
    → load s ptr ≡ some p
    → HasRefs s
        (store_page
          (record s { clock = clock; page_hits = hits })
          ptr.1
          (record p { age = age; on_device = on_device }))
        (refs_at s.pages)
touched s ptr p clock hits age on_device loaded =
    let (lt, refs) = load-refs ptr s p loaded in
    let k =
      store_page-HasRefs (record s { clock = clock; page_hits = hits }) ptr.1
        (record p { age = age; on_device = on_device }) (refs_at s.pages) lt
        (λ i. elim (Bool-cases (ptr.1 == i)) [
          | inl hit ↦ rw hit (sym refs ∙ ap (refs_at s.pages) ((==_iff ptr.1 i).0 hit))
          | inr miss ↦ rw miss refl
        ]) in
    record { cfg = k.cfg; array = k.array; size = k.size; refs = k.refs }

same_store :
    (r r' : Result (PagePtr × ℕ × ℕ)) (s s' : Store)
    → ◌≡◌ {A = Option (Result (PagePtr × ℕ × ℕ) × Store)} (some (r, s)) (some (r', s'))
    → s ≡ s'
same_store r r' s s' e = cc

page_acquire-HasRefs :
    (q : Sequence) (layer token : ℕ) (on_device : Bool) (s s' : Store)
    → (r : Result (PagePtr × ℕ × ℕ)) → page_acquire q layer token on_device s ≡ some (r, s')
    → HasRefs s s' (refs_at s.pages)
unfolding page_acquire
page_acquire-HasRefs q layer token on_device s s' r done =
    elim (Bool-cases (leb s.cfg.n_layers layer)) [
      | inl beyond ↦ unchanged s s' (same_store _ r s s' (rw (beyond, page_acquire) at done))
      | inr low ↦ elim (Bool-cases (leb (length q.tokens) token)) [
        | inl behind ↦ unchanged s s' (same_store _ r s s' (rw (low, behind, page_acquire) at done))
        | inr inside ↦ elim (Option-cases (get_elem? q.pages (token / s.cfg.page_tokens))) [
          | inl no_page ↦ cc (rw (low, inside, no_page, page_acquire) at done)
          | inr (ptr, has) ↦ elim (Option-cases (load s ptr)) [
            | inl stray ↦ cc (rw (low, inside, has, stray, page_acquire) at done)
            | inr (p, loaded) ↦
                let ran = rw (low, inside, has, loaded, page_acquire) at done in
                subst (λ z. HasRefs s z (refs_at s.pages)) (same_store _ r _ s' ran)
                  (touched s ptr p _ _ _ on_device loaded)
          ]
        ]
      ]
    ]

pub acquire-IsCounted :
    (q : Sequence) (layer token : ℕ) (on_device : Bool) (s s' : Store) (qs : List Sequence)
    → (r : Result (PagePtr × ℕ × ℕ)) → page_acquire q layer token on_device s ≡ some (r, s')
    → IsCounted (record { store = s; sequences = qs })
    → IsCounted (record { store = s'; sequences = qs })
acquire-IsCounted q layer token on_device s s' qs r done h =
    let k = page_acquire-HasRefs q layer token on_device s s' r done in
    record {
      no_budget = ap (λ c. c.host_budget_bytes) k.cfg ∙ h.no_budget;
      some_tokens = subst (λ c. 0 < c.page_tokens) (sym k.cfg) h.some_tokens;
      refs = λ i. k.refs i ∙ h.refs i;
      paged =
          All-map (IsPaged s) (IsPaged s') qs
            (λ x p. IsPaged-later s s' x k.cfg k.array (omega (arith, k.size)) p) h.paged;
    }
