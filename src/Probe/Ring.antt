-- ===== src/Probe/Ring.antt =====
-- Positions on the ring: `pos n s d` stands `d` steps behind `s`.
use etha_jhol.Common.{ℕ, ◌+◌, ◌-◌, ◌%◌, ◌≤◌, ◌<◌, ◌≡◌, ◌⊎◌, inl, inr, arith, ap, ◌∙◌}
use native.Mathlib.Decide.{dec_lt}
use native.Mathlib.Nat.{mod-add-mod, add-mod-mod, add-mod_right, mod-eq_of_lt}

abbrev pub pos : ℕ → ℕ → ℕ → ℕ
pos n s d = (s + d) % n

-- The step of the search loops.
abbrev pub next : ℕ → ℕ → ℕ
next n i = (i + 1) % n

pub pos-lt : (n s d : ℕ) → 0 < n → pos n s d < n
pos-lt n s d h = omega arith

sub_mod : (n x : ℕ) → n ≤ x → x < n + n → x % n ≡ x - n
sub_mod n x h k = grind arith

pub pos-cases :
    (n s d : ℕ) → s < n → d < n → (pos n s d ≡ s + d) ⊎ ((n ≤ s + d) × (pos n s d + n ≡ s + d))
pos-cases n s d h k = elim (dec_lt (s + d) n) [
  | yes p ↦ inl (grind arith)
  | no p ↦ inr (omega arith, omega (arith, sub_mod n (s + d) (omega arith) (omega arith)))
]

pub pos-zero : (n s : ℕ) → s < n → pos n s 0 ≡ s
pos-zero n s h = omega (arith, pos-cases n s 0 h (omega arith))

pub next-pos : (n s d : ℕ) → s < n → d < n → next n (pos n s d) ≡ pos n s (d + 1)
next-pos n s d h k = mod-add-mod (s + d) n 1 ∙ ap (λ (x : ℕ). x % n) (omega arith)

pub pos-injective : (n s d e : ℕ) → s < n → d < n → e < n → pos n s d ≡ pos n s e → d ≡ e
pos-injective n s d e h k l p = omega (arith, pos-cases n s d h k, pos-cases n s e h l)

-- Every position is met on the way round.
pub distance : ℕ → ℕ → ℕ → ℕ
distance n s j = (j + (n - s)) % n

pub distance-lt : (n s j : ℕ) → 0 < n → distance n s j < n
unfolding distance
distance-lt n s j h = omega arith

pub pos-distance : (n s j : ℕ) → s < n → j < n → pos n s (distance n s j) ≡ j
unfolding distance
pos-distance n s j h k =
    add-mod-mod s (j + (n - s)) n
    ∙ ap (λ (x : ℕ). x % n) {y = j + n} (omega arith)
    ∙ add-mod_right j n
    ∙ mod-eq_of_lt k
