-- ===== src/KvCache/Pages/Moved.antt =====
-- Where `new_page` moves the array of pages: src/kv_cache.c, line 99.
use etha_jhol.Common.{
  ℕ, ◌/◌, ◌≤◌, ◌<◌, ◌≡◌, ◌≢◌, refl, ap, ◌∙◌, arith, true, false, none, some, length, leb, ◌==◌,
  ==_iff, ==_refl, inl, inr, Bool-cases,
}
use etha_jhol.Common.Result.{ok}
use etha_jhol.KvCache.Pages.NewPage.{new_page-eq}
use etha_jhol.KvCache.Pages.{
  Store, Sequence, PagePtr, page_bytes, load, grow_pages, push_page, new_page, append,
}

module _ (realloc : ℕ → ℕ) (s : Store) (no_budget : s.cfg.host_budget_bytes ≡ 0)
    (some_bytes : page_bytes s.cfg ≢ 0) (full : length s.pages ≡ s.capacity) where
  grow_pages-moved : (grow_pages realloc s).array ≡ realloc s.array
  unfolding grow_pages
  grow_pages-moved = rw (full, ==_refl s.capacity) refl

  new_page-moved :
      (p : PagePtr) × ((new_page realloc false s).0 ≡ some p)
      × ((new_page realloc false s).1.array ≡ realloc s.array)
  unfolding push_page
  new_page-moved = elim (Bool-cases (page_bytes s.cfg == 0)) [
    | inl empty ↦ absurd (some_bytes ((==_iff (page_bytes s.cfg) 0).0 empty))
    | inr bytes ↦
        let eq = new_page-eq realloc s no_budget bytes in
        (_, ap (λ r. r.0) eq, ap (λ r. r.1.array) eq ∙ grow_pages-moved)
  ]

  -- Without a host budget, with a full array of pages that realloc moves, and a token that takes a new
  -- page within max_pages: append succeeds, and no pointer taken before it leads to a page any more.
  pub append-dangles :
      (q : Sequence) (token : ℕ)
      → realloc s.array ≢ s.array
      → length q.pages ≤ length q.tokens / s.cfg.page_tokens
      → length q.pages < s.cfg.max_pages
      → (q' : Sequence) × ((append realloc q token s).0 ≡ ok q')
        × ((i : ℕ) → load (append realloc q token s).1 (s.array, i) ≡ none)
  unfolding append load
  append-dangles q token moves starts room =
      let (p, made, array) = new_page-moved in
      let old : (s.array == (new_page realloc false s).1.array) ≡ false =
        ground (arith, array, moves) in
      let is_full : leb (length q.pages) (length q.tokens / s.cfg.page_tokens) ≡ true =
        ground arith in
      let is_room : leb s.cfg.max_pages (length q.pages) ≡ false = ground arith in
      rw (is_full, is_room, made) (_, refl, λ i. rw old refl)
