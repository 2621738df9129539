-- ===== src/Tokenizer/Array/Items.antt =====
-- The entries of an array's text are the strings that src/gguf.c has written into it.
use etha_jhol.Common.{
  leb, ℕ, zero, suc, ◌+◌, ◌<◌, ◌≤◌, ◌≡◌, inl, inr, refl, sym, ap, ◌∙◌, subst, arith, Bool, true,
  false, ◌||◌, some, List, [], ◌∷◌, ◌++◌, ◌==◌, if◌then◌else◌, length, length-append, append_assoc,
  append-nil, Bool-cases,
}
use etha_jhol.Gguf.Reader.{Cursor, Outcome, got, null, overflow, Reader}
use etha_jhol.Gguf.Value.{
  Buffer, escape, item_text, grow_cap, need_of, append_item, close_array, lift, array_items,
}
use etha_jhol.Tokenizer.Array.{
  scan_from, scan_quoted, skip_separators, entry_at, array_next, entries_from, read_tokens, before,
}

-- A byte that is neither a quote nor a backslash stands for itself.
scan_from-plain :
    (fuel c : ℕ) (t : List ℕ)
    → ((c == b'"') || (c == b'\\')) ≡ false
    → 0 < length t
    → scan_from (suc fuel) (c ∷ t) ≡ before (c ∷ []) (scan_from fuel t)
unfolding scan_from
scan_from-plain fuel c [] other more = absurd (omega arith)
scan_from-plain fuel c (e ∷ s) other more =
    let quote : (c == b'"') ≡ false = ground (arith, other) in
    let slash : (c == b'\\') ≡ false = ground (arith, other) in rw (scan_from, quote, slash) refl

-- Behind a backslash a quote or a backslash stands for itself.
scan_from-escaped :
    (fuel e : ℕ) (t : List ℕ)
    → ((e == b'"') || (e == b'\\')) ≡ true
    → scan_from (suc fuel) (b'\\' ∷ e ∷ t) ≡ before (e ∷ []) (scan_from fuel t)
unfolding scan_from
scan_from-escaped fuel e t special =
    let not_u : (e == b'u') ≡ false = ground (arith, special) in
    let not_n : (e == b'n') ≡ false = ground (arith, special) in
    let not_r : (e == b'r') ≡ false = ground (arith, special) in
    let not_t : (e == b't') ≡ false = ground (arith, special) in
    rw (scan_from, not_u, not_n, not_r, not_t) refl

scan_from-quote : (fuel : ℕ) (rest : List ℕ) → scan_from (suc fuel) (b'"' ∷ rest) ≡ ([], rest)
unfolding scan_from
scan_from-quote fuel [] = refl
scan_from-quote fuel (r ∷ rest) = refl

-- The scan undoes the escapes, and ends behind the closing quote.
scan_from-escape :
    (fuel : ℕ) (item rest : List ℕ)
    → length (escape item ++ b'"' ∷ rest) ≤ fuel
    → scan_from fuel (escape item ++ b'"' ∷ rest) ≡ (item, rest)
unfolding escape
scan_from-escape zero [] rest h = absurd (omega arith)
scan_from-escape (suc fuel) [] rest h = scan_from-quote fuel rest
scan_from-escape zero (c ∷ item) rest h =
    absurd (omega (arith, length-append (escape (c ∷ item)) (b'"' ∷ rest)))
scan_from-escape (suc fuel) (c ∷ item) rest h = elim (Bool-cases ((c == b'"') || (c == b'\\'))) [
  | inl special ↦
      let size : suc (suc (length (escape item ++ b'"' ∷ rest))) ≤ suc fuel =
        rw (escape, special) at h in
      rw (escape, special)
        (scan_from-escaped fuel c (escape item ++ b'"' ∷ rest) special
          ∙ ap (before (c ∷ [])) (scan_from-escape fuel item rest (omega (arith, size))))
  | inr other ↦
      let size : suc (length (escape item ++ b'"' ∷ rest)) ≤ suc fuel = rw (escape, other) at h in
      rw (escape, other)
        (scan_from-plain fuel c (escape item ++ b'"' ∷ rest) other
            (omega (arith, length-append (escape item) (b'"' ∷ rest)))
          ∙ ap (before (c ∷ [])) (scan_from-escape fuel item rest (omega (arith, size))))
]

-- An item as it stands in the text, behind a separator or none.
entry_at-item :
    (item rest : List ℕ) → entry_at (b'"' ∷ (escape item ++ b'"' ∷ rest)) ≡ some (item, rest)
unfolding entry_at scan_quoted
entry_at-item item rest =
    ap some (scan_from-escape (length (escape item ++ b'"' ∷ rest)) item rest (omega arith))

-- The separator and the text of each item.
abbrev pub items_text : Bool → List (List ℕ) → List ℕ
items_text later [] = []
items_text later (item ∷ items) =
    (if later then b',' ∷ [] else []) ++ (item_text true item ++ items_text true items)

item-shape :
    (item rest : List ℕ) → item_text true item ++ rest ≡ b'"' ∷ (escape item ++ b'"' ∷ rest)
unfolding item_text
item-shape item rest = ap (λ t. b'"' ∷ t) (append_assoc (escape item) (b'"' ∷ []) rest)

entries_from-later :
    (fuel : ℕ) (items : List (List ℕ))
    → length items < fuel
    → entries_from fuel (items_text true items ++ b']' ∷ []) ≡ items
unfolding entries_from array_next skip_separators
entries_from-later zero items h = absurd (omega arith)
entries_from-later (suc fuel) [] h = refl
entries_from-later (suc fuel) (item ∷ items) h =
    let shape =
      append_assoc (item_text true item) (items_text true items) (b']' ∷ [])
      ∙ item-shape item (items_text true items ++ b']' ∷ []) in
    let next : array_next (b',' ∷ ((item_text true item ++ items_text true items) ++ b']' ∷ []))
        ≡ some (item, items_text true items ++ b']' ∷ []) =
      ap (λ t. array_next (b',' ∷ t)) shape
      ∙ entry_at-item item (items_text true items ++ b']' ∷ []) in
    rw (entries_from, next) (ap (λ xs. item ∷ xs) (entries_from-later fuel items (omega arith)))

item_text-pos : (item : List ℕ) → 0 < length (item_text true item)
unfolding item_text
item_text-pos item = omega arith

length-items_text :
    (later : Bool) (items : List (List ℕ)) → length items ≤ length (items_text later items)
length-items_text later [] = omega arith
length-items_text true (item ∷ items) = omega (
  arith,
  length-append (item_text true item) (items_text true items),
  length-items_text true items,
)
length-items_text false (item ∷ items) = omega (
  arith,
  length-append (item_text true item) (items_text true items),
  length-items_text true items,
  item_text-pos item,
)

-- The entries of an array's text are its items.
pub read_tokens-items_text :
    (items : List (List ℕ)) → read_tokens (b'[' ∷ (items_text false items ++ b']' ∷ [])) ≡ items
unfolding read_tokens entries_from array_next skip_separators
read_tokens-items_text [] = refl
read_tokens-items_text (item ∷ items) =
    let rest = items_text true items ++ b']' ∷ [] in
    let shape =
      append_assoc (item_text true item) (items_text true items) (b']' ∷ [])
      ∙ item-shape item rest in
    let next : array_next (b'[' ∷ ((item_text true item ++ items_text true items) ++ b']' ∷ []))
        ≡ some (item, rest) =
      ap (λ t. array_next (b'[' ∷ t)) shape ∙ entry_at-item item rest in
    let size : length items < length ((item_text true item ++ items_text true items) ++ b']' ∷ []) =
      omega (
        arith,
        length-append (item_text true item ++ items_text true items) (b']' ∷ []),
        length-append (item_text true item) (items_text true items),
        length-items_text true items,
        item_text-pos item,
      ) in
    rw (entries_from, next) (ap (λ xs. item ∷ xs) (entries_from-later _ items size))

-- The reader gives the items, one after the other, between two cursors.
abbrev pub Reads : Reader (List ℕ) → Cursor → List (List ℕ) → Cursor → Type 0
Reads read c [] c' = c ≡ c'
Reads read c (item ∷ items) c' = (c₁ : Cursor) × (read c ≡ got (item, c₁)) × Reads read c₁ items c'

append_item-text :
    (later : Bool) (item : List ℕ) (b b' : Buffer)
    → append_item later true item b ≡ got b'
    → b'.text ≡ b.text ++ ((if later then b',' ∷ [] else []) ++ item_text true item)
unfolding append_item
append_item-text later item b b' h =
    let need = need_of later true b.text item in
    elim (Bool-cases (
      leb (length (b.text ++ ((if later then b',' ∷ [] else []) ++ item_text true item)))
        (grow_cap need need b.cap))) [
          | inl fits ↦
              let made : Path Buffer
                  (record {
                    text = b.text ++ ((if later then b',' ∷ [] else []) ++ item_text true item);
                    cap = grow_cap need need b.cap;
                  })
                  b' =
                cc (rw (append_item, fits) at h) in
              sym (ap Buffer.text made)
          | inr large ↦ cc (rw (append_item, large) at h)
        ]

-- Where a sequence gives a result, both of its parts do.
>>=-got :
    {A B : Type 0} (o : Outcome (A × Cursor)) (f : A → Reader B) (r : B × Cursor)
    → elim o [ got (a, c') ↦ f a c' | null ↦ null | overflow ↦ overflow ] ≡ got r
    → (a : A) × (c : Cursor) × (o ≡ got (a, c)) × (f a c ≡ got r)
>>=-got (got (a, c)) f r h = (a, c, refl, h)
>>=-got null f r h = cc h
>>=-got overflow f r h = cc h

lift-got :
    {A : Type 0} (o : Outcome A) (c : Cursor) (a : A) (c' : Cursor)
    → lift o c ≡ got (a, c')
    → (o ≡ got a) × (c ≡ c')
lift-got {A = A} (got x) c a c' h =
    let same : Path (A × Cursor) (x, c) (a, c') = cc h in
    (ap (λ (p : A × Cursor). got p.0) same, ap (λ (p : A × Cursor). p.1) same)
lift-got null c a c' h = cc h
lift-got overflow c a c' h = cc h

array_items-text :
    (read : Reader (List ℕ)) (n : ℕ) (later : Bool) (b b' : Buffer) (c c' : Cursor)
    → array_items read later true n b c ≡ got (b', c')
    → (items : List (List ℕ)) × Reads read c items c'
      × (length items ≡ n)
      × (b'.text ≡ b.text ++ items_text later items)
unfolding array_items
array_items-text read zero later b b' c c' h =
    let same : Path (Buffer × Cursor) (b, c) (b', c') = cc h in
    (
      [],
      ap (λ (p : Buffer × Cursor). p.1) same,
      refl,
      ap (λ (p : Buffer × Cursor). p.0.text) (sym same) ∙ sym (append-nil b.text),
    )
array_items-text read (suc n) later b b' c c' h =
    let (item, c₁, first, rest) = >>=-got (read c) _ (b', c') h in
    let (b₁, c₂, written, more) =
      >>=-got (lift (append_item later true item b) c₁) _ (b', c') rest in
    let (appended, same) = lift-got (append_item later true item b) c₁ b₁ c₂ written in
    let (items, reads, size, text) = array_items-text read n true b₁ b' c₂ c' more in
    let here = (if later then b',' ∷ [] else []) ++ item_text true item in
    (
      item ∷ items,
      (c₂, (first ∙ ap (λ (k : Cursor). got (item, k)) same), reads),
      omega (arith, size),
      text
          ∙ ap (λ t. t ++ items_text true items) (append_item-text later item b b₁ appended)
          ∙ append_assoc b.text here (items_text true items)
          ∙ ap (λ t. b.text ++ t)
              (append_assoc (if later then b',' ∷ [] else []) (item_text true item)
                (items_text true items)),
    )

-- An array of strings that `read_array_text` has read in full, `n` of them, and closed, is read back
-- by the tokenizer: its tokens are the strings that the reader gave, in order.
pub read_tokens-array_items :
    (read : Reader (List ℕ)) (n : ℕ) (b : Buffer) (text : List ℕ) (c c' : Cursor)
    → array_items read false true n (record { text = b'[' ∷ []; cap = 64 }) c ≡ got (b, c')
    → close_array b ≡ got text
    → Reads read c (read_tokens text) c' × (length (read_tokens text) ≡ n)
unfolding close_array
read_tokens-array_items read n b text c c' h closed =
    let (items, reads, size, written) =
      array_items-text read n false (record { text = b'[' ∷ []; cap = 64 }) b c c' h in
    let whole : text ≡ b.text ++ b']' ∷ [] = ends (leb (length b.text + 2) b.cap) closed in
    let same : read_tokens text ≡ items =
      ap read_tokens (whole ∙ ap (λ t. t ++ b']' ∷ []) written) ∙ read_tokens-items_text items in
    (subst (λ xs. Reads read c xs c') (sym same) reads, ap length same ∙ size)
  where
    ends :
        (fits : Bool)
        → (if fits then got (b.text ++ b']' ∷ []) else overflow) ≡ got text
        → text ≡ b.text ++ b']' ∷ []
    ends true e = cc e
    ends false e = cc e
