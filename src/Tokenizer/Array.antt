-- ===== src/Tokenizer/Array.antt =====
-- The text of metadata arrays, as src/tokenizer.c reads it: `hex4`, `scan_quoted`, `array_next`, and the
-- loop of `vg_tokenizer_load` over the tokens. A cursor is the text from it on.
pub mod Items
use etha_jhol.Common.{
  ℕ, zero, suc, ◌+◌, ◌-◌, ◌*◌, ◌%◌, ◌^◌, Bool, true, false, ◌&&◌, ◌||◌, not, Option, none, some,
  List, [], ◌∷◌, ◌++◌, ltb, leb, ◌==◌, if◌then◌else◌, length, drop, get_or,
}
use etha_jhol.Tokenizer.Utf8.{utf8_put}

-- A digit, or 0 for any other byte.
abbrev pub hex_digit : ℕ → ℕ
hex_digit c =
    if leb b'0' c && leb c b'9'
    then c - b'0'
    else if leb b'a' c && leb c b'f'
    then c - b'a' + 10
    else if leb b'A' c && leb c b'F'
    then c - b'A' + 10
    else 0

-- `hex4`
unfoldable pub hex4 : List ℕ → ℕ
hex4 p =
    ((hex_digit (get_or p 0 0) * 16 + hex_digit (get_or p 1 0)) * 16 + hex_digit (get_or p 2 0))
      * 16
    + hex_digit (get_or p 3 0)

-- The code point of `\u` and the number of bytes that it takes behind the `u`: the second half of a
-- surrogate pair is taken with the first.
unfoldable pub escaped_code_point : List ℕ → ℕ × ℕ
unfolding hex4
escaped_code_point p =
    let cp = hex4 p in
    let lo = hex4 (drop 6 p) in
    if leb 0xd800 cp
      && leb cp 0xdbff
      && (get_or p 4 0 == b'\\')
      && (get_or p 5 0 == b'u')
      && leb 10 (length p)
      && leb 0xdc00 lo
      && leb lo 0xdfff
    then (0x10000 + (cp - 0xd800) * 2 ^ 10 + (lo - 0xdc00), 10)
    else (cp, 4)

-- The byte that an escape other than `\u` stands for.
abbrev pub unescaped : ℕ → ℕ
unescaped e = if e == b'n' then 10 else if e == b'r' then 13 else if e == b't' then 9 else e

abbrev before : List ℕ → List ℕ × List ℕ → List ℕ × List ℕ
before bytes (item, rest) = (bytes ++ item, rest)

-- The loop of `scan_quoted` behind the opening quote, with `fuel` rounds: the bytes, and the cursor. A
-- round takes at least one byte, so the length of the text is enough.
unfoldable pub scan_from : ℕ → List ℕ → List ℕ × List ℕ
unfolding escaped_code_point
scan_from zero s = ([], s)
scan_from (suc fuel) [] = ([], [])
scan_from (suc fuel) (c ∷ []) =
    if c == b'"' then ([], []) else if c == b'\\' then ([], []) else (c ∷ [], [])
scan_from (suc fuel) (c ∷ e ∷ s) =
    let plain = before (c ∷ []) (scan_from fuel (e ∷ s)) in
    let escape = before (unescaped e ∷ []) (scan_from fuel s) in
    let unicode =
      before (utf8_put (escaped_code_point s).0)
        (scan_from fuel (drop (escaped_code_point s).1 s)) in
    if c == b'"'
    then ([], e ∷ s)
    else if not (c == b'\\')
    then plain
    else if not (e == b'u')
    then escape
    else if ltb (length s) 4
    then ([], s)
    else unicode

-- `scan_quoted`
unfoldable pub scan_quoted : List ℕ → List ℕ × List ℕ
unfolding scan_from
scan_quoted [] = ([], [])
scan_quoted (c ∷ s) = if c == b'"' then scan_from (length s) s else ([], c ∷ s)

abbrev pub is_separator : ℕ → Bool
is_separator c = (c == b',') || (c == b' ') || (c == 10) || (c == 13) || (c == 9)

unfoldable pub skip_separators : List ℕ → List ℕ
skip_separators [] = []
skip_separators (c ∷ s) = let rest = skip_separators s in if is_separator c then rest else c ∷ s

-- `if (*p == '[') ++p;`
abbrev pub skip_bracket : List ℕ → List ℕ
skip_bracket [] = []
skip_bracket (c ∷ s) = if c == b'[' then s else c ∷ s

-- The entry at the cursor, and the cursor behind it.
unfoldable pub entry_at : List ℕ → Option (List ℕ × List ℕ)
unfolding scan_quoted
entry_at [] = none
entry_at (c ∷ s) = if c == b'"' then some (scan_quoted (c ∷ s)) else none

-- `array_next`
unfoldable pub array_next : List ℕ → Option (List ℕ × List ℕ)
unfolding skip_separators entry_at
array_next s = entry_at (skip_separators (skip_bracket (skip_separators s)))

-- The loop over the entries, with `fuel` rounds.
unfoldable pub entries_from : ℕ → List ℕ → List (List ℕ)
unfolding array_next
entries_from zero s = []
entries_from (suc fuel) s = elim (array_next s) [
  | none ↦ []
  | some (item, rest) ↦ item ∷ entries_from fuel rest
]

-- The tokens that `vg_tokenizer_load` reads: it counts the entries and then copies as many.
unfoldable pub read_tokens : List ℕ → List (List ℕ)
unfolding entries_from
read_tokens s = entries_from (length s) s
