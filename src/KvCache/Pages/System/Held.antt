-- ===== src/KvCache/Pages/System/Held.antt =====
-- What a change of the store leaves of the sequences in it.
use etha_jhol.Common.{ℕ, ◌+◌, ◌≤◌, ◌≡◌, sym, ap, ◌∙◌, arith, List, [], ◌∷◌, ◌++◌, length, All}
use etha_jhol.KvCache.Pages.{Store, Sequence, pages_for}
use etha_jhol.KvCache.Pages.System.{held, IsPaged}
use etha_jhol.KvCache.Pages.System.Counts.{count, count-append, All-IsValidPtr}

pub All-split {ℓ κ} :
    {A : Type ℓ} (P : A → Type κ) (xs : List A) (y : A) (ys : List A)
    → All P (xs ++ y ∷ ys)
    → All P xs × P y × All P ys
All-split P [] y ys (h, k) = (tt, h, k)
All-split P (x ∷ xs) y ys (h, k) = let (a, b, c) = All-split P xs y ys k in ((h, a), b, c)

pub count-held :
    (i : ℕ) (before : List Sequence) (q : Sequence) (after : List Sequence)
    → count i (held (before ++ q ∷ after))
      ≡ count i (held before) + count i q.pages + count i (held after)
count-held i [] q after = count-append i q.pages (held after) ∙ omega arith
count-held i (b ∷ before) q after =
    count-append i b.pages _
    ∙ omega (arith, count-append i b.pages (held before), count-held i before q after)

pub count-held-append :
    (i : ℕ) (before after : List Sequence)
    → count i (held (before ++ after)) ≡ count i (held before) + count i (held after)
count-held-append i [] after = omega arith
count-held-append i (b ∷ before) after =
    count-append i b.pages _
    ∙ omega (arith, count-append i b.pages (held before), count-held-append i before after)

-- A store that keeps its array and its pages' places keeps sequences paged.
pub IsPaged-later :
    (s s' : Store) (q : Sequence)
    → s'.cfg ≡ s.cfg
    → s'.array ≡ s.array
    → length s.pages ≤ length s'.pages
    → IsPaged s q
    → IsPaged s' q
IsPaged-later s s' q cfg array le h = record {
  valid = All-IsValidPtr s s' q.pages array le h.valid;
  size = h.size ∙ ap (λ c. pages_for c (length q.tokens)) (sym cfg);
}
