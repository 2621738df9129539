-- ===== src/Common/Text.antt =====
-- Text as lists of bytes: literals, and the numbers that `strtol` reads.
use Prim.Native.Nat.{ℕ, ◌+◌, ◌-◌, ◌*◌, ◌%◌, ◌^◌}
use Prim.Native.Char.{code}
use Prim.Native.String.{String}
use mathlib.Core.Bool.{Bool, ◌&&◌, ◌||◌}
use mathlib.Core.List.{List, [], ◌∷◌}
use mathlib.Core.Option.{Option, none, some}
use etha_jhol.Common.Tests.{ltb, leb, ◌==◌, if◌then◌else◌}

-- The bytes of an ASCII literal.
abbrev pub ascii : String → List ℕ
ascii String.[] = []
ascii (String.◌∷◌ c rest) = code c ∷ ascii rest

-- `isspace` in the C locale.
abbrev pub is_space : ℕ → Bool
is_space c = (c == b' ') || (leb 9 c && leb c 13)

abbrev pub is_decimal : ℕ → Bool
is_decimal c = leb b'0' c && leb c b'9'

-- The value of the digits at the front, and the text behind them.
unfoldable pub scan_digits : ℕ → List ℕ → ℕ × List ℕ
scan_digits v [] = (v, [])
scan_digits v (c ∷ s) =
    let rest = scan_digits (v * 10 + (c - b'0')) s in if is_decimal c then rest else (v, c ∷ s)

-- Digits, or `none` where there are none.
unfoldable pub scan_number : List ℕ → Option (ℕ × List ℕ)
unfolding scan_digits
scan_number [] = none
scan_number (c ∷ s) = if is_decimal c then some (scan_digits 0 (c ∷ s)) else none

-- `strtol(s, &end, 10)` with a `long` of 64 bits, as its two's complement pattern, and the text from
-- `end` on. `none` leaves `end` at `s`, with the value 0. Out of range gives the nearest bound.
abbrev positive : Option (ℕ × List ℕ) → Option (ℕ × List ℕ)
positive none = none
positive (some (v, s)) = some (if ltb (2 ^ 63 - 1) v then 2 ^ 63 - 1 else v, s)

abbrev negative : Option (ℕ × List ℕ) → Option (ℕ × List ℕ)
negative none = none
negative (some (v, s)) = some ((if ltb (2 ^ 63) v then 2 ^ 63 else (2 ^ 64 - v) % 2 ^ 64), s)

unfoldable pub strtol : List ℕ → Option (ℕ × List ℕ)
unfolding scan_number
strtol [] = none
strtol (c ∷ s) =
    let rest = strtol s in
    if is_space c
    then rest
    else if c == b'-'
    then negative (scan_number s)
    else if c == b'+'
    then positive (scan_number s)
    else positive (scan_number (c ∷ s))
