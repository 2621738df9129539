-- ===== src/KvCache/Pages/System/Append.antt =====
-- What an append leaves of a counted system.
use etha_jhol.Common.{
  ℕ, zero, suc, ◌+◌, ◌/◌, ◌≤◌, ◌<◌, ◌≡◌, refl, sym, ap, ◌∙◌, subst, arith, Bool, true, false, none,
  some, List, [], ◌∷◌, ◌++◌, length, length-append, leb, leb→le, ◌==◌, if◌then◌else◌, inl, inr,
  Bool-cases, Option-cases, All-append, All-map,
}
use etha_jhol.Common.Result.{fail, ok, range, no_memory}
use etha_jhol.KvCache.Pages.{
  Page, Store, Sequence, PagePtr, page_bytes, grow_pages, push_page, new_page, append, pages_for,
}
use etha_jhol.KvCache.Pages.NewPage.{new_page-eq}
use etha_jhol.KvCache.Pages.Size.{pages_for-suc, pages_for-le, div-le-pages_for}
use etha_jhol.KvCache.Pages.System.{IsPaged, IsCounted}
use etha_jhol.KvCache.Pages.System.Counts.{refs_at, count, IsValidPtr, count-append, All-IsValidPtr}
use etha_jhol.KvCache.Pages.System.Held.{All-split, count-held, IsPaged-later}

refs_at-push :
    (ps : List Page) (p : Page) (i : ℕ)
    → refs_at (ps ++ p ∷ []) i ≡ refs_at ps i + (if length ps == i then p.refs else 0)
refs_at-push [] p zero = omega arith
refs_at-push [] p (suc i) = ground arith
refs_at-push (q ∷ ps) p zero = ground arith
refs_at-push (q ∷ ps) p (suc i) = ground (arith, refs_at-push ps p i)

-- The store behind a new page.
record Pushed (s s' : Store) : Type 0 where
  cfg : s'.cfg ≡ s.cfg
  array : s'.array ≡ s.array
  size : length s'.pages ≡ length s.pages + 1
  refs : (i : ℕ) → refs_at s'.pages i ≡ refs_at s.pages i + (if length s.pages == i then 1 else 0)

module _ (realloc : ℕ → ℕ) where
  grow_pages-same :
      (s : Store) → ((grow_pages realloc s).cfg ≡ s.cfg) × ((grow_pages realloc s).pages ≡ s.pages)
  unfolding grow_pages
  grow_pages-same s = elim (Bool-cases (length s.pages == s.capacity)) [
    | inl full ↦ rw full (refl, refl)
    | inr room ↦ rw room (refl, refl)
  ]

  push_page-Pushed :
      (s : Store) (on_device : Bool) (bytes : ℕ)
      → (grow_pages realloc s).array ≡ s.array
      → Pushed s (push_page realloc on_device bytes (grow_pages realloc s))
  unfolding push_page
  push_page-Pushed s on_device bytes array =
      let (cfg, pages) = grow_pages-same s in
      record {
        cfg = cfg;
        array = array;
        size = length-append (grow_pages realloc s).pages _ ∙ ap (λ ps. length ps + 1) pages;
        refs = λ i.
            refs_at-push (grow_pages realloc s).pages _ i
            ∙ ap (λ ps. refs_at ps i + (if length ps == i then 1 else 0)) pages;
      }

  new_page-Pushed :
      (s : Store) (p : PagePtr)
      → s.cfg.host_budget_bytes ≡ 0
      → (new_page realloc false s).0 ≡ some p
      → (new_page realloc false s).1.array ≡ s.array
      → (p ≡ (s.array, length s.pages)) × Pushed s (new_page realloc false s).1
  unfolding new_page push_page
  new_page-Pushed s p no_budget made stays = elim (Bool-cases (page_bytes s.cfg == 0)) [
    | inl empty ↦ cc (rw (empty, new_page) at made)
    | inr some_bytes ↦
        let eq = new_page-eq realloc s no_budget some_bytes in
        let array : (grow_pages realloc s).array ≡ s.array = sym (ap (λ r. r.1.array) eq) ∙ stays in
        (
          cc (sym made ∙ ap (λ r. r.0) eq, array),
          subst (Pushed s) (sym (ap (λ r. r.1) eq))
              (push_page-Pushed s false (page_bytes s.cfg) array),
        )
  ]

  -- The sequence and the store behind an append.
  record Appended (s : Store) (q q' : Sequence) (s' : Store) : Type 0 where
    cfg : s'.cfg ≡ s.cfg
    array : s'.array ≡ s.array
    size : length s.pages ≤ length s'.pages
    refs : (i : ℕ) → refs_at s'.pages i + count i q.pages ≡ refs_at s.pages i + count i q'.pages
    paged : IsPaged s' q'

  append-space :
      (s : Store) (q : Sequence) (token : ℕ)
      → leb (length q.pages) (length q.tokens / s.cfg.page_tokens) ≡ false
      → append realloc q token s ≡ (ok (record q { tokens = q.tokens ++ token ∷ [] }), s)
  unfolding append
  append-space s q token space = rw (space, append) refl

  append-new :
      (s : Store) (q : Sequence) (token : ℕ) (p : PagePtr)
      → leb (length q.pages) (length q.tokens / s.cfg.page_tokens) ≡ true
      → leb s.cfg.max_pages (length q.pages) ≡ false
      → (new_page realloc false s).0 ≡ some p
      → append realloc q token s ≡ (
        ok (record { tokens = q.tokens ++ token ∷ []; pages = q.pages ++ p ∷ [] }),
        (new_page realloc false s).1,
      )
  unfolding append
  append-new s q token p full room made = rw (full, append) (rw room (rw made refl))

  append-none :
      (s : Store) (q : Sequence) (token : ℕ)
      → leb (length q.pages) (length q.tokens / s.cfg.page_tokens) ≡ true
      → leb s.cfg.max_pages (length q.pages) ≡ false
      → (new_page realloc false s).0 ≡ none
      → (append realloc q token s).0 ≡ fail no_memory
  unfolding append
  append-none s q token full room failed = rw (full, append) (rw room (rw failed refl))

  length-appended :
      (n : ℕ) (tokens : List ℕ) (token : ℕ)
      → n ≡ length tokens
      → length (tokens ++ token ∷ []) ≡ n + 1
  length-appended n tokens token e = length-append tokens (token ∷ []) ∙ omega arith

  space-Appended :
      (s : Store) (q : Sequence) (token : ℕ)
      → 0 < s.cfg.page_tokens
      → IsPaged s q
      → leb (length q.pages) (length q.tokens / s.cfg.page_tokens) ≡ false
      → Appended s q (record q { tokens = q.tokens ++ token ∷ [] }) s
  space-Appended s q token pos h space =
      let n = length q.tokens in
      let below : n / s.cfg.page_tokens < length q.pages = ground arith in
      record {
        cfg = refl;
        array = refl;
        size = omega arith;
        refs = λ i. refl;
        paged = record {
          valid = h.valid;
          size =
              omega (arith, h.size, below, pages_for-suc s.cfg pos n, pages_for-le s.cfg pos n)
              ∙ ap (pages_for s.cfg) (sym (length-appended n q.tokens token refl));
        };
      }

  page-Appended :
      (s s' : Store) (q : Sequence) (token : ℕ)
      → 0 < s.cfg.page_tokens
      → IsPaged s q
      → leb (length q.pages) (length q.tokens / s.cfg.page_tokens) ≡ true
      → Pushed s s'
      → Appended s q
          (record {
            tokens = q.tokens ++ token ∷ [];
            pages = q.pages ++ (s.array, length s.pages) ∷ [];
          })
          s'
  page-Appended s s' q token pos h full k =
      let n = length q.tokens in
      let above : length q.pages ≤ n / s.cfg.page_tokens = leb→le _ _ full in
      let le : length s.pages ≤ length s'.pages = omega (arith, k.size) in
      record {
        cfg = k.cfg;
        array = k.array;
        size = le;
        refs =
            λ i. omega (arith, k.refs i, count-append i q.pages ((s.array, length s.pages) ∷ []));
        paged = record {
          valid =
              All-append (IsValidPtr s') q.pages _ (All-IsValidPtr s s' q.pages k.array le h.valid)
                ((sym k.array, omega (arith, k.size)), tt);
          size =
              length-append q.pages _
              ∙ omega
                  (arith, h.size, above, pages_for-suc s.cfg pos n, div-le-pages_for s.cfg pos n)
              ∙ ap (pages_for s.cfg) (sym (length-appended n q.tokens token refl))
              ∙ ap (λ c. pages_for c (length (q.tokens ++ token ∷ []))) (sym k.cfg);
        };
      }

  append-full :
      (s : Store) (q : Sequence) (token : ℕ)
      → leb (length q.pages) (length q.tokens / s.cfg.page_tokens) ≡ true
      → leb s.cfg.max_pages (length q.pages) ≡ true
      → (append realloc q token s).0 ≡ fail range
  unfolding append
  append-full s q token full too_many = rw (full, append) (rw too_many refl)

  by_result :
      (s : Store) (q q' : Sequence) (token : ℕ) (r : Sequence) (s' : Store)
      → append realloc q token s ≡ (ok r, s')
      → (append realloc q token s).0 ≡ ok q'
      → Appended s q r s'
      → Appended s q q' (append realloc q token s).1
  by_result s q q' token r s' eq done h =
      let same : r ≡ q' = cc (sym (ap (λ x. x.0) eq) ∙ done) in
      subst (λ t. Appended s q q' t) (sym (ap (λ x. x.1) eq))
        (subst (λ z. Appended s q z s') same h)

  append-Appended :
      (s : Store) (q q' : Sequence) (token : ℕ)
      → s.cfg.host_budget_bytes ≡ 0
      → 0 < s.cfg.page_tokens
      → IsPaged s q
      → (append realloc q token s).0 ≡ ok q'
      → (append realloc q token s).1.array ≡ s.array
      → Appended s q q' (append realloc q token s).1
  append-Appended s q q' token no_budget pos h done stays =
      elim (Bool-cases (leb (length q.pages) (length q.tokens / s.cfg.page_tokens))) [
        | inl full ↦ elim (Bool-cases (leb s.cfg.max_pages (length q.pages))) [
          | inl too_many ↦ cc (append-full s q token full too_many)
          | inr room ↦ elim (Option-cases (new_page realloc false s).0) [
            | inl failed ↦ cc (append-none s q token full room failed)
            | inr (p, made) ↦
                let eq = append-new s q token p full room made in
                let (where_it_is, pushed) =
                  new_page-Pushed s p no_budget made (sym (ap (λ x. x.1.array) eq) ∙ stays) in
                by_result s q q' token _ _ eq done (
                  subst
                    (λ r.
                      Appended s q
                        (record { tokens = q.tokens ++ token ∷ []; pages = q.pages ++ r ∷ [] })
                        (new_page realloc false s).1)
                    (sym where_it_is) (page-Appended s _ q token pos h full pushed))
          ]
        ]
        | inr space ↦
            by_result s q q' token _ _ (append-space s q token space) done
              (space-Appended s q token pos h space)
      ]

  -- An append that leaves the array where it is keeps a system counted.
  pub append-IsCounted :
      (s : Store) (before after : List Sequence) (q q' : Sequence) (token : ℕ)
      → (append realloc q token s).0 ≡ ok q'
      → (append realloc q token s).1.array ≡ s.array
      → IsCounted (record { store = s; sequences = before ++ q ∷ after })
      → IsCounted
          (record { store = (append realloc q token s).1; sequences = before ++ q' ∷ after })
  append-IsCounted s before after q q' token done stays h =
      let (hb, hq, ha) = All-split (IsPaged s) before q after h.paged in
      let s1 = (append realloc q token s).1 in
      let k = append-Appended s q q' token h.no_budget h.some_tokens hq done stays in
      let later = λ (r : Sequence) (p : IsPaged s r). IsPaged-later s s1 r k.cfg k.array k.size p in
      record {
        no_budget = ap (λ c. c.host_budget_bytes) k.cfg ∙ h.no_budget;
        some_tokens = subst (λ c. 0 < c.page_tokens) (sym k.cfg) h.some_tokens;
        refs = λ i.
            omega (
              arith,
              k.refs i,
              h.refs i,
              count-held i before q after,
              count-held i before q' after,
            );
        paged =
            All-append (IsPaged s1) before (q' ∷ after)
              (All-map (IsPaged s) (IsPaged s1) before later hb)
              (k.paged, All-map (IsPaged s) (IsPaged s1) after later ha);
      }
