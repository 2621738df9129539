-- ===== src/KvCache/Pages/NewPage.antt =====
-- A new page where there is no host budget, so that no page is evicted.
use etha_jhol.Common.{ℕ, ◌≡◌, refl, ap, false, some, length, ◌==◌, ==_iff}
use etha_jhol.KvCache.Pages.{Store, page_bytes, evict_pages, grow_pages, push_page, new_page}

evict_pages-same : (s : Store) → s.cfg.host_budget_bytes ≡ 0 → evict_pages s ≡ s
unfolding evict_pages
evict_pages-same s no_budget = rw ((==_iff s.cfg.host_budget_bytes 0).1 no_budget, evict_pages) refl

-- What `new_page` gives: a page at the end of the array.
pub new_page-eq :
    (realloc : ℕ → ℕ) (s : Store)
    → s.cfg.host_budget_bytes ≡ 0
    → (page_bytes s.cfg == 0) ≡ false
    → new_page realloc false s ≡ (
      some ((grow_pages realloc s).array, length s.pages),
      push_page realloc false (page_bytes s.cfg) (grow_pages realloc s),
    )
unfolding new_page
new_page-eq realloc s no_budget some_bytes =
    rw (some_bytes, new_page)
      (ap
        (λ t. (
          some ((grow_pages realloc t).array, length t.pages),
          push_page realloc false (page_bytes s.cfg) (grow_pages realloc t),
        ))
        (evict_pages-same s no_budget))
