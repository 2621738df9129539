-- ===== src/KvCache/Pages/System/Keeps.antt =====
-- Every step keeps the references counted and the pointers valid.
use etha_jhol.Common.{
  ℕ, zero, suc, ◌^◌, ◌≤◌, ◌<◌, ◌≡◌, sym, ap, ◌∙◌, subst, arith, Option, some, List, [], ◌∷◌, ◌++◌,
  length, length-take, ltb, ltb→ge, ◌==◌, inl, inr, Bool-cases, All, All-append, All-map, take,
}
use etha_jhol.Common.Result.{Result, ok}
use etha_jhol.KvCache.Pages.{Store, Sequence, PagePtr, close, fork, pages_for}
use etha_jhol.KvCache.Pages.Shared.{fork-eq}
use etha_jhol.KvCache.Pages.Size.{pages_for_mono, pages_for-zero}
use etha_jhol.KvCache.Pages.System.{System, held, Step, IsPaged, IsCounted}
use etha_jhol.KvCache.Pages.System.Counts.{
  count, IsValidPtr, count-append, for_each-retain, for_each-drop,
}
use etha_jhol.KvCache.Pages.System.Held.{All-split, count-held, count-held-append, IsPaged-later}
use etha_jhol.KvCache.Pages.System.Acquire.{acquire-IsCounted}
use etha_jhol.KvCache.Pages.System.Append.{append-IsCounted}

All-take {ℓ κ} : {A : Type ℓ} (P : A → Type κ) (n : ℕ) (xs : List A) → All P xs → All P (take n xs)
All-take P zero xs h = tt
All-take P (suc n) [] h = tt
All-take P (suc n) (x ∷ xs) (h, k) = (h, All-take P n xs k)

count-le-length : (i : ℕ) (ps : List PagePtr) → count i ps ≤ length ps
count-le-length i [] = omega arith
count-le-length i (p ∷ ps) = elim (Bool-cases (p.1 == i)) [
  | inl hit ↦ rw hit (omega (arith, count-le-length i ps))
  | inr miss ↦ rw miss (omega (arith, count-le-length i ps))
]

fork-IsPaged :
    (s : Store) (q : Sequence) (prefix : ℕ)
    → 0 < s.cfg.page_tokens
    → prefix ≤ length q.tokens
    → IsPaged s q
    → IsPaged s
        (record { tokens = take prefix q.tokens; pages = take (pages_for s.cfg prefix) q.pages })
fork-IsPaged s q prefix pos within h =
    let kept : length (take prefix q.tokens) ≡ prefix = length-take prefix q.tokens ∙ omega arith in
    record {
      valid = All-take (IsValidPtr s) (pages_for s.cfg prefix) q.pages h.valid;
      size =
          length-take (pages_for s.cfg prefix) q.pages
          ∙ omega (arith, h.size, pages_for_mono s.cfg pos prefix (length q.tokens) within)
          ∙ ap (pages_for s.cfg) (sym kept);
    }

fork-IsCounted :
    (s s' : Store) (before after : List Sequence) (q q' : Sequence) (prefix : ℕ)
    → fork q prefix s ≡ some (ok q', s')
    → length (take (pages_for s.cfg prefix) q.pages ++ held (before ++ q ∷ after)) < 2 ^ 32
    → IsCounted (record { store = s; sequences = before ++ q ∷ after })
    → IsCounted (record { store = s'; sequences = q' ∷ before ++ q ∷ after })
unfolding fork
fork-IsCounted s s' before after q q' prefix done few h =
    let (hb, hq, ha) = All-split (IsPaged s) before q after h.paged in
    elim (Bool-cases (ltb (length q.tokens) prefix)) [
      | inl beyond ↦ cc (rw (beyond, fork) at done)
      | inr within ↦
          let pages = take (pages_for s.cfg prefix) q.pages in
          let r : Sequence = record { tokens = take prefix q.tokens; pages = pages } in
          let hr = fork-IsPaged s q prefix h.some_tokens (ltb→ge _ _ within) hq in
          let (s1, ran, k) = for_each-retain pages s hr.valid (λ i. omega (
            arith,
            h.refs i,
            few,
            count-append i pages (held (before ++ q ∷ after)),
            count-le-length i (pages ++ held (before ++ q ∷ after)),
          )) in
          let eq = fork-eq s s1 q prefix within ran in
          let done' : ◌≡◌ {A = Option (Result Sequence × Store)} (some (ok r, s1))
              (some (ok q', s')) =
            sym eq ∙ done in
          let same_q : r ≡ q' = cc in
          let same_s : s1 ≡ s' = cc in
          let later = λ (x : Sequence) (p : IsPaged s x).
            IsPaged-later s s1 x k.cfg k.array (omega (arith, k.size)) p in
          subst (λ z. IsCounted (record { store = s'; sequences = z ∷ before ++ q ∷ after })) same_q
            (subst (λ z. IsCounted (record { store = z; sequences = r ∷ before ++ q ∷ after }))
              same_s
              (record {
                no_budget = ap (λ c. c.host_budget_bytes) k.cfg ∙ h.no_budget;
                some_tokens = subst (λ c. 0 < c.page_tokens) (sym k.cfg) h.some_tokens;
                refs = λ i.
                    omega (
                      arith,
                      k.refs i,
                      h.refs i,
                      count-append i pages (held (before ++ q ∷ after)),
                    );
                paged = (
                  later r hr,
                  All-map (IsPaged s) (IsPaged s1) (before ++ q ∷ after) later h.paged,
                );
              }))
    ]

close-IsCounted :
    (s s' : Store) (before after : List Sequence) (q : Sequence)
    → close q s ≡ some s'
    → IsCounted (record { store = s; sequences = before ++ q ∷ after })
    → IsCounted (record { store = s'; sequences = before ++ after })
unfolding close
close-IsCounted s s' before after q done h =
    let (hb, hq, ha) = All-split (IsPaged s) before q after h.paged in
    let (s1, ran, k) = for_each-drop q.pages s hq.valid in
    let same : s1 ≡ s' = cc (sym ran ∙ done) in
    let later = λ (r : Sequence) (p : IsPaged s r).
      IsPaged-later s s1 r k.cfg k.array (omega (arith, k.size)) p in
    subst (λ t. IsCounted (record { store = t; sequences = before ++ after })) same
      (record {
        no_budget = ap (λ c. c.host_budget_bytes) k.cfg ∙ h.no_budget;
        some_tokens = subst (λ c. 0 < c.page_tokens) (sym k.cfg) h.some_tokens;
        refs = λ i. omega (
          arith,
          k.refs i,
          h.refs i,
          count-held i before q after,
          count-held-append i before after,
        );
        paged =
            All-append (IsPaged s1) before after (All-map (IsPaged s) (IsPaged s1) before later hb)
              (All-map (IsPaged s) (IsPaged s1) after later ha);
      })

-- A step that leaves the array of pages where it is keeps all of it.
pub Step-IsCounted :
    {x y : System} → Step x y → y.store.array ≡ x.store.array → IsCounted x → IsCounted y
Step-IsCounted (Step.opens s qs) stays h = record {
  no_budget = h.no_budget;
  some_tokens = h.some_tokens;
  refs = h.refs;
  paged = (record { valid = tt; size = sym (pages_for-zero s.cfg h.some_tokens) }, h.paged);
}
Step-IsCounted (Step.appends realloc s before after q q' token done) stays h =
    append-IsCounted realloc s before after q q' token done stays h
Step-IsCounted (Step.forks s s' before after q q' prefix done few) stays h =
    fork-IsCounted s s' before after q q' prefix done few h
Step-IsCounted (Step.closes s s' before after q done) stays h =
    close-IsCounted s s' before after q done h
Step-IsCounted (Step.acquires s s' before after q layer token on_device r done) stays h =
    acquire-IsCounted q layer token on_device s s' (before ++ q ∷ after) r done h
