-- ===== src/Gguf/Value/Growth.antt =====
-- The buffer of `read_array_text`: when a round stays inside it, and when it does not.
use etha_jhol.Common.{
  ℕ, zero, suc, ◌+◌, ◌*◌, ◌^◌, ◌≤◌, ◌<◌, ◌≡◌, refl, ap, arith, Bool, true, false, ◌||◌, List, [],
  ◌∷◌, ◌++◌, leb, ◌==◌, if◌then◌else◌, length, length-append, Bool-cases, inl, inr,
}
use etha_jhol.Gguf.Reader.{got, overflow}
use etha_jhol.Gguf.Value.{Buffer, grow_cap, escape, item_text, need_of, append_item}
use etha_jhol.Common.Numbers.{two_pow_pos}
use native.Mathlib.Nat.{pow-suc}

-- The bytes that `escape` puts a backslash before.
unfoldable pub specials : List ℕ → ℕ
specials [] = 0
specials (c ∷ s) = if (c == b'"') || (c == b'\\') then suc (specials s) else specials s

length-escape : (s : List ℕ) → length (escape s) ≡ length s + specials s
unfolding escape specials
length-escape [] = omega arith
length-escape (c ∷ s) = ground (arith, length-escape s)

-- The loop ends with more room than was needed.
grow_cap-lt : (fuel need cap : ℕ) → 0 < cap → need < cap + fuel → need < grow_cap fuel need cap
unfolding grow_cap
grow_cap-lt zero need cap pos h = omega arith
grow_cap-lt (suc fuel) need cap pos h = ground (arith, grow_cap-lt fuel need (cap * 2))

-- The loop never passes a doubling that has enough room.
grow_cap-le : (fuel j need cap : ℕ) → need < cap * 2 ^ j → grow_cap fuel need cap ≤ cap * 2 ^ j
unfolding grow_cap
grow_cap-le zero j need cap h = grind (arith, two_pow_pos j)
grow_cap-le (suc fuel) zero need cap h =
    let stop : leb cap need ≡ false = ground arith in rw stop (omega arith)
grow_cap-le (suc fuel) (suc j) need cap h =
    let double : cap * 2 * 2 ^ j ≡ cap * 2 ^ suc j =
      omega (arith, ap (λ (t : ℕ). cap * t) (pow-suc 2 j)) in
    let rest = grow_cap-le fuel j need (cap * 2) (rw double h) in
    elim (Bool-cases (leb cap need)) [
      | inl more ↦ rw (more, ← double) rest
      | inr stop ↦ rw stop (grind (arith, two_pow_pos (suc j)))
    ]

-- The bytes that an item adds behind the separator.
written : Bool → List ℕ → ℕ
written quoted item = (if quoted then 2 + specials item else 0) + length item

length-item_text :
    (quoted : Bool) (item : List ℕ) → length (item_text quoted item) ≡ written quoted item
unfolding item_text written
length-item_text true item =
    omega (arith, length-append (escape item) (b'"' ∷ []), length-escape item)
length-item_text false item = omega arith

new_text : Bool → Bool → List ℕ → List ℕ → List ℕ
new_text later quoted text item =
    text ++ ((if later then b',' ∷ [] else []) ++ item_text quoted item)

length-new_text :
    (later quoted : Bool) (text item : List ℕ)
    → length (new_text later quoted text item)
      ≡ length text + (if later then 1 else 0) + written quoted item
unfolding new_text
length-new_text true quoted text item =
    omega (arith, length-append text (b',' ∷ item_text quoted item), length-item_text quoted item)
length-new_text false quoted text item =
    omega (arith, length-append text (item_text quoted item), length-item_text quoted item)

written-plain :
    (quoted : Bool) (item : List ℕ)
    → (quoted ≡ true → specials item ≡ 0)
    → written quoted item ≡ (if quoted then 2 else 0) + length item
unfolding written
written-plain true item h = omega (arith, h refl)
written-plain false item h = omega arith

-- A round whose item is not quoted, or has nothing to escape, stays inside the grown buffer, adds
-- exactly the separator and the item, and leaves room for the closing bracket and the zero byte.
pub append_item-fits :
    (later quoted : Bool) (item : List ℕ) (b : Buffer)
    → 0 < b.cap
    → (quoted ≡ true → specials item ≡ 0)
    → (b' : Buffer) × (append_item later quoted item b ≡ got b')
      × (b'.text ≡ b.text ++ ((if later then b',' ∷ [] else []) ++ item_text quoted item))
      × (length b'.text + 2 ≤ b'.cap)
unfolding append_item new_text
append_item-fits later quoted item b pos plain =
    let need = need_of later quoted b.text item in
    let room = grow_cap-lt need need b.cap pos (omega (arith, pos)) in
    let size = length-new_text later quoted b.text item in
    let total : length (new_text later quoted b.text item) + 1 ≡ need =
      omega (arith, size, written-plain quoted item plain) in
    let text = new_text later quoted b.text item in
    let fits : leb (length text) (grow_cap need need b.cap) ≡ true = ground arith in
    (
      record { text = text; cap = grow_cap need need b.cap },
      rw fits,
      refl,
      omega (arith, total, room),
    )

-- A quoted item overflows the buffer where some doubling of its capacity has more than the bytes
-- asked for, which leave out the backslashes, and less than the bytes written.
pub append_item-overflows :
    (later : Bool) (item : List ℕ) (b : Buffer) (j : ℕ)
    → need_of later true b.text item < b.cap * 2 ^ j
    → b.cap * 2 ^ j + 1 < need_of later true b.text item + specials item
    → append_item later true item b ≡ overflow
unfolding append_item new_text written
append_item-overflows later item b j lo hi =
    let need = need_of later true b.text item in
    let cap = grow_cap-le need j need b.cap lo in
    let size = length-new_text later true b.text item in
    let text = new_text later true b.text item in
    let over : leb (length text) (grow_cap need need b.cap) ≡ false = ground arith in rw over
