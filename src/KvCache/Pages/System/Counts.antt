-- ===== src/KvCache/Pages/System/Counts.antt =====
-- Counting pointers, and the references that `page_retain` and `page_drop` leave.
use etha_jhol.Common.{
  ℕ, zero, suc, ◌+◌, ◌-◌, ◌%◌, ◌^◌, ◌≤◌, ◌<◌, ◌≡◌, refl, sym, ap, ◌∙◌, arith, some, List, [], ◌∷◌,
  ◌++◌, length, length-set, ◌==◌, ==_iff, ==_refl, if◌then◌else◌, inl, inr, Bool-cases, All,
  get_elem?, set,
}
use etha_jhol.KvCache.Pages.{
  Page, Store, PagePtr, load, store_page, for_each, page_retain, page_drop,
}

-- The references of page `i`; none behind the end.
abbrev pub refs_at : List Page → ℕ → ℕ
refs_at [] i = 0
refs_at (p ∷ ps) zero = p.refs
refs_at (p ∷ ps) (suc i) = refs_at ps i

-- How many of the pointers have index `i`.
abbrev pub count : ℕ → List PagePtr → ℕ
count i [] = 0
count i (p ∷ ps) = (if p.1 == i then 1 else 0) + count i ps

pub count-append : (i : ℕ) (xs ys : List PagePtr) → count i (xs ++ ys) ≡ count i xs + count i ys
count-append i [] ys = omega arith
count-append i (x ∷ xs) ys = omega (arith, count-append i xs ys)

-- The pointer leads to a page.
abbrev pub IsValidPtr : Store → PagePtr → Type 0
IsValidPtr s ptr = (ptr.0 ≡ s.array) × (ptr.1 < length s.pages)

one_here : (p : PagePtr) (ps : List PagePtr) → 1 ≤ count p.1 (p ∷ ps)
one_here p ps = rw (==_refl p.1) (omega arith)

get_elem?-some :
    (ps : List Page) (i : ℕ)
    → i < length ps
    → (p : Page) × (get_elem? ps i ≡ some p) × (refs_at ps i ≡ p.refs)
get_elem?-some [] i h = absurd (omega arith)
get_elem?-some (p ∷ ps) zero h = (p, refl, refl)
get_elem?-some (p ∷ ps) (suc i) h = get_elem?-some ps i (omega arith)

refs_at-set :
    (ps : List Page) (i j : ℕ) (p : Page)
    → i < length ps
    → refs_at (set ps i p) j ≡ (if i == j then p.refs else refs_at ps j)
refs_at-set [] i j p h = absurd (omega arith)
refs_at-set (q ∷ ps) zero zero p h = refl
refs_at-set (q ∷ ps) zero (suc j) p h = ground arith
refs_at-set (q ∷ ps) (suc i) zero p h = ground arith
refs_at-set (q ∷ ps) (suc i) (suc j) p h = ground (arith, refs_at-set ps i j p)

-- The store after an operation on references: the same pages in the same array, with references `f i`.
pub record HasRefs (s s' : Store) (f : ℕ → ℕ) : Type 0 where
  pub cfg : s'.cfg ≡ s.cfg
  pub array : s'.array ≡ s.array
  pub size : length s'.pages ≡ length s.pages
  pub refs : (i : ℕ) → refs_at s'.pages i ≡ f i

-- The page that a valid pointer leads to.
pub load-some :
    (ptr : PagePtr) (s : Store)
    → IsValidPtr s ptr
    → (p : Page) × (load s ptr ≡ some p) × (refs_at s.pages ptr.1 ≡ p.refs)
unfolding load
load-some ptr s (here, lt) =
    let (p, found, refs) = get_elem?-some s.pages ptr.1 lt in
    (p, rw ((==_iff ptr.0 s.array).1 here) found, refs)

-- Writing a page with other references.
pub store_page-HasRefs :
    (s : Store) (k : ℕ) (p : Page) (f : ℕ → ℕ)
    → k < length s.pages
    → ((i : ℕ) → (if k == i then p.refs else refs_at s.pages i) ≡ f i)
    → HasRefs s (store_page s k p) f
unfolding store_page
store_page-HasRefs s k p f lt same = record {
  cfg = refl;
  array = refl;
  size = length-set s.pages k p;
  refs = λ i. refs_at-set s.pages k i p lt ∙ same i;
}

page_retain-HasRefs :
    (ptr : PagePtr) (s : Store)
    → IsValidPtr s ptr
    → refs_at s.pages ptr.1 + 1 < 2 ^ 32
    → (s' : Store) × (page_retain ptr s ≡ some s')
      × HasRefs s s' (λ i. refs_at s.pages i + count i (ptr ∷ []))
unfolding page_retain
page_retain-HasRefs ptr s valid small =
    let (p, found, refs) = load-some ptr s valid in
    (
      store_page s ptr.1 (record p { refs = (p.refs + 1) % 2 ^ 32 }),
      rw (found, page_retain) refl,
      store_page-HasRefs s ptr.1 _ _ valid.1 (λ i. elim (Bool-cases (ptr.1 == i)) [
        | inl hit ↦
            let same : refs_at s.pages i ≡ refs_at s.pages ptr.1 =
              ap (refs_at s.pages) (sym ((==_iff ptr.1 i).0 hit)) in
            rw hit (omega (arith, same, refs))
        | inr miss ↦ rw miss (omega arith)
      ]),
    )

page_drop-HasRefs :
    (ptr : PagePtr) (s : Store)
    → IsValidPtr s ptr
    → (s' : Store) × (page_drop ptr s ≡ some s')
      × HasRefs s s' (λ i. refs_at s.pages i - count i (ptr ∷ []))
unfolding page_drop
page_drop-HasRefs ptr s valid =
    let (p, found, refs) = load-some ptr s valid in
    (
      store_page s ptr.1 (record p { refs = p.refs - 1 }),
      rw (found, page_drop) refl,
      store_page-HasRefs s ptr.1 _ _ valid.1 (λ i. elim (Bool-cases (ptr.1 == i)) [
        | inl hit ↦
            let same : refs_at s.pages i ≡ refs_at s.pages ptr.1 =
              ap (refs_at s.pages) (sym ((==_iff ptr.1 i).0 hit)) in
            rw hit (omega (arith, same, refs))
        | inr miss ↦ rw miss (omega arith)
      ]),
    )

-- Pointers stay valid.
pub All-IsValidPtr :
    (s s' : Store) (ps : List PagePtr)
    → s'.array ≡ s.array
    → length s.pages ≤ length s'.pages
    → All (IsValidPtr s) ps
    → All (IsValidPtr s') ps
All-IsValidPtr s s' [] a l h = tt
All-IsValidPtr s s' (p ∷ ps) a l ((here, lt), h) =
    ((here ∙ sym a, omega arith), All-IsValidPtr s s' ps a l h)

-- Every pointer retained once more.
pub for_each-retain :
    (ps : List PagePtr) (s : Store)
    → All (IsValidPtr s) ps
    → ((i : ℕ) → refs_at s.pages i + count i ps < 2 ^ 32)
    → (s' : Store) × (for_each page_retain ps s ≡ some s')
      × HasRefs s s' (λ i. refs_at s.pages i + count i ps)
unfolding for_each
for_each-retain [] s valid small =
    (s, refl, record { cfg = refl; array = refl; size = refl; refs = λ i. omega arith })
for_each-retain (p ∷ ps) s (valid, more) small =
    let (s1, first, h1) = page_retain-HasRefs p s valid (omega (arith, small p.1, one_here p ps)) in
    let (s2, rest, h2) =
      for_each-retain ps s1 (All-IsValidPtr s s1 ps h1.array (omega (arith, h1.size)) more)
        (λ i. omega (arith, small i, h1.refs i)) in
    (
      s2,
      rw (first, for_each) rest,
      record {
        cfg = h2.cfg ∙ h1.cfg;
        array = h2.array ∙ h1.array;
        size = h2.size ∙ h1.size;
        refs = λ i. omega (arith, h2.refs i, h1.refs i);
      },
    )

-- Every pointer dropped.
pub for_each-drop :
    (ps : List PagePtr) (s : Store)
    → All (IsValidPtr s) ps
    → (s' : Store) × (for_each page_drop ps s ≡ some s')
      × HasRefs s s' (λ i. refs_at s.pages i - count i ps)
unfolding for_each
for_each-drop [] s valid =
    (s, refl, record { cfg = refl; array = refl; size = refl; refs = λ i. omega arith })
for_each-drop (p ∷ ps) s (valid, more) =
    let (s1, first, h1) = page_drop-HasRefs p s valid in
    let (s2, rest, h2) =
      for_each-drop ps s1 (All-IsValidPtr s s1 ps h1.array (omega (arith, h1.size)) more) in
    (
      s2,
      rw (first, for_each) rest,
      record {
        cfg = h2.cfg ∙ h1.cfg;
        array = h2.array ∙ h1.array;
        size = h2.size ∙ h1.size;
        refs = λ i. omega (arith, h2.refs i, h1.refs i);
      },
    )
