-- ===== src/KvCache/Pages/System.antt =====
-- A store with all its sequences. With no host budget, and as long as the array of pages is not moved, each page
-- has as many references as the sequences have pointers to it, and every pointer leads to a page.
pub mod Counts
mod Held
mod Acquire
mod Append
pub mod Keeps
pub mod Safe
use etha_jhol.Common.{
  ℕ, zero, suc, ◌+◌, ◌-◌, ◌*◌, ◌/◌, ◌%◌, ◌^◌, ◌≤◌, ◌<◌, ◌≡◌, refl, sym, ap, ◌∙◌, subst, arith, Bool,
  true, false, Option, none, some, List, [], ◌∷◌, ◌++◌, length, map, concat, ltb, leb, ◌==◌,
  if◌then◌else◌, inl, inr, Bool-cases, Option-cases, All, take, get_elem?,
}
use etha_jhol.Common.Result.{Result, fail, ok}
use etha_jhol.KvCache.Pages.{
  Config, Page, Store, Sequence, PagePtr, page_bytes, load, evict_pages, grow_pages, push_page,
  new_page, append, page_acquire, close, fork, for_each, page_retain, page_drop, pages_for,
}
use etha_jhol.KvCache.Pages.System.Counts.{
  refs_at, count, IsValidPtr, count-append, for_each-retain, for_each-drop, All-IsValidPtr,
}

pub record System : Type 0 where
  pub store : Store
  pub sequences : List Sequence

-- All pointers that the sequences hold.
abbrev pub held : List Sequence → List PagePtr
held qs = concat (map (λ q. q.pages) qs)

-- What a caller does: a new sequence, a token at the end of one, a fork, the end of one, and the page of a
-- token. There are always fewer than 2^32 pointers, as many as the references of a page can count. Each
-- growth of the array of pages may move it to any place.
pub data Step : System → System → Type 0 where
  opens :
      (s : Store) (qs : List Sequence)
      → Step
          (record { store = s; sequences = qs })
          (record { store = s; sequences = record { tokens = []; pages = [] } ∷ qs })
  appends :
      (realloc : ℕ → ℕ) (s : Store) (before after : List Sequence) (q q' : Sequence) (token : ℕ)
      → (append realloc q token s).0 ≡ ok q'
      → Step
          (record { store = s; sequences = before ++ q ∷ after })
          (record { store = (append realloc q token s).1; sequences = before ++ q' ∷ after })
  forks :
      (s s' : Store) (before after : List Sequence) (q q' : Sequence) (prefix : ℕ)
      → fork q prefix s ≡ some (ok q', s')
      → length (take (pages_for s.cfg prefix) q.pages ++ held (before ++ q ∷ after)) < 2 ^ 32
      → Step
          (record { store = s; sequences = before ++ q ∷ after })
          (record { store = s'; sequences = q' ∷ before ++ q ∷ after })
  closes :
      (s s' : Store) (before after : List Sequence) (q : Sequence)
      → close q s ≡ some s'
      → Step
          (record { store = s; sequences = before ++ q ∷ after })
          (record { store = s'; sequences = before ++ after })
  acquires :
      (s s' : Store) (before after : List Sequence) (q : Sequence) (layer token : ℕ)
      → (on_device : Bool) (r : Result (PagePtr × ℕ × ℕ))
      → page_acquire q layer token on_device s ≡ some (r, s')
      → Step
          (record { store = s; sequences = before ++ q ∷ after })
          (record { store = s'; sequences = before ++ q ∷ after })

-- The systems that steps lead to from a store that was opened.
pub data Reach (start : Store) : System → Type 0 where
  here : Reach start (record { store = start; sequences = [] })
  next : {x y : System} → Reach start x → Step x y → Reach start y

-- A run in which no step moves the array of pages.
abbrev pub Stays : {start : Store} {x : System} → Reach start x → Type 0
Stays Reach.here = Unit
Stays (Reach.next {x} {y} r step) = Stays r × (y.store.array ≡ x.store.array)

-- A sequence whose pointers lead to pages, and which has just the pages that its tokens take.
pub record IsPaged (s : Store) (q : Sequence) : Type 0 where
  pub valid : All (IsValidPtr s) q.pages
  pub size : length q.pages ≡ pages_for s.cfg (length q.tokens)

pub record IsCounted (x : System) : Type 0 where
  pub no_budget : x.store.cfg.host_budget_bytes ≡ 0
  pub some_tokens : 0 < x.store.cfg.page_tokens
  pub refs : (i : ℕ) → refs_at x.store.pages i ≡ count i (held x.sequences)
  pub paged : All (IsPaged x.store) x.sequences
