-- ===== src/Tests/Pages.antt =====
-- Pages of two tokens: a sequence, its fork, and an array that moves.
use etha_jhol.Common.{
  ℕ, suc, ◌*◌, ◌≡◌, ◌≢◌, refl, arith, true, false, none, some, List, [], ◌∷◌, length,
}
use etha_jhol.Common.Result.{ok}
use etha_jhol.KvCache.Pages.{
  Config, Page, Store, Sequence, PagePtr, page_bytes, load, kv_open, append, fork, page_acquire,
  pages_for,
}
use etha_jhol.KvCache.Pages.System.{Step, Reach, Stays, IsPaged, IsCounted}
use etha_jhol.KvCache.Pages.System.Counts.{IsValidPtr}
use etha_jhol.KvCache.Pages.System.Safe.{Reach-IsCounted, page_acquire-IsSafe}
use etha_jhol.KvCache.Pages.Shared.{Shares, fork-Shares}
use etha_jhol.KvCache.Pages.Moved.{append-dangles}

abbrev config : Config
config = record {
  page_tokens = 2;
  n_layers = 1;
  kv_heads = 1;
  head_dim = 1;
  element_bytes = 2;
  host_budget_bytes = 0;
  device_budget_bytes = 0;
  max_pages = 8;
}

-- A store with pages of these references.
abbrev with_pages : List Page → ℕ → Store
with_pages pages capacity = record {
  cfg = config;
  pages = pages;
  capacity = capacity;
  array = 0;
  clock = length pages;
  page_allocs = length pages;
  page_hits = 0;
  page_evictions = 0;
  host_bytes = length pages * 4;
  device_bytes = 0;
}

abbrev page : ℕ → Page
page refs = record { bytes = 4; refs = refs; age = 1; on_device = false }

abbrev no_tokens : Sequence
no_tokens = record { tokens = []; pages = [] }

abbrev one_token : Sequence
one_token = record { tokens = 7 ∷ []; pages = (0, 0) ∷ [] }

abbrev two_tokens : Sequence
two_tokens = record { tokens = 7 ∷ 8 ∷ []; pages = (0, 0) ∷ [] }

abbrev in_place : ℕ → ℕ
in_place a = a

opened : kv_open config 0 ≡ ok (with_pages [] 0)
unfolding kv_open
opened = refl

appended :
    append in_place no_tokens 7 (with_pages [] 0) ≡ (ok one_token, with_pages (page 1 ∷ []) 64)
unfolding append
appended = refl

forked :
    fork one_token 1 (with_pages (page 1 ∷ []) 64)
    ≡ some (ok one_token, with_pages (page 2 ∷ []) 64)
unfolding fork
forked = refl

appended_result : (append in_place no_tokens 7 (with_pages [] 0)).0 ≡ ok one_token
unfolding append
appended_result = refl

-- A sequence of one token, and a fork of it.
unfoldable reached :
    Reach
      (with_pages [] 0)
      (record { store = with_pages (page 2 ∷ []) 64; sequences = one_token ∷ one_token ∷ [] })
unfolding append pages_for
reached =
    Reach.next
      (Reach.next (Reach.next Reach.here (Step.opens (with_pages [] 0) []))
        (Step.appends in_place (with_pages [] 0) [] [] no_tokens one_token 7 appended_result))
      (Step.forks (with_pages (page 1 ∷ []) 64) (with_pages (page 2 ∷ []) 64) [] [] one_token
        one_token 1 forked (omega arith))

reached-Stays : Stays reached
unfolding append reached
reached-Stays = (((tt, refl), refl), refl)

Reach-IsCounted_example :
    IsCounted
      (record { store = with_pages (page 2 ∷ []) 64; sequences = one_token ∷ one_token ∷ [] })
Reach-IsCounted_example =
    Reach-IsCounted config 0 (with_pages [] 0) opened refl reached reached-Stays

page_acquire-IsSafe_example :
    (at : PagePtr × ℕ × ℕ) × (s : Store) × (page_acquire one_token 0 0 true
        (with_pages (page 2 ∷ []) 64)
      ≡ some (ok at, s))
    × IsValidPtr (with_pages (page 2 ∷ []) 64) at.0
page_acquire-IsSafe_example =
    page_acquire-IsSafe config 0 (with_pages [] 0) opened refl
      (record { store = with_pages (page 2 ∷ []) 64; sequences = one_token ∷ one_token ∷ [] })
      reached reached-Stays (one_token ∷ []) [] one_token 0 0 true refl (omega arith) (omega arith)

two_tokens-IsPaged : IsPaged (with_pages (page 1 ∷ []) 64) two_tokens
unfolding pages_for
two_tokens-IsPaged = record { valid = ((refl, omega arith), tt); size = refl }

forked_short :
    fork two_tokens 1 (with_pages (page 1 ∷ []) 64)
    ≡ some (ok one_token, with_pages (page 2 ∷ []) 64)
unfolding fork
forked_short = refl

fork-Shares_example :
    Shares in_place
      (with_pages (page 1 ∷ []) 64)
      (with_pages (page 2 ∷ []) 64)
      two_tokens
      1
      9
      one_token
fork-Shares_example =
    fork-Shares in_place (with_pages (page 1 ∷ []) 64) (with_pages (page 2 ∷ []) 64) two_tokens
      one_token 1 9 two_tokens-IsPaged (omega arith) (omega arith) forked_short

some_bytes : page_bytes config ≢ 0
unfolding page_bytes
some_bytes e = omega arith

append-dangles_example :
    (q : Sequence) × ((append suc two_tokens 9 (with_pages (page 1 ∷ []) 1)).0 ≡ ok q)
    × ((i : ℕ) → load (append suc two_tokens 9 (with_pages (page 1 ∷ []) 1)).1 (0, i) ≡ none)
append-dangles_example =
    append-dangles suc (with_pages (page 1 ∷ []) 1) refl some_bytes refl two_tokens 9
      (λ e. omega arith) (omega arith) (omega arith)
