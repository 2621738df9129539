-- ===== src/Common/Result.antt =====
-- `VG_Status` of include/vg/gguf.h, and results that carry it.
use mathlib.Core.Path.{◌≡◌, refl}
use mathlib.Core.Logic.{◌⊎◌, inl, inr}

-- The codes behind `VG_OK`.
pub data Status : Type 0 where
  invalid io format range no_memory unsupported busy : Status

pub data Result {ℓ} (A : Type ℓ) : Type ℓ where
  fail : Status → Result A
  ok : A → Result A

infixl 5 ◌>>=◌
abbrev pub ◌>>=◌ {ℓ κ} : {A : Type ℓ} {B : Type κ} → Result A → (A → Result B) → Result B
fail status >>= rest = fail status
ok value >>= rest = rest value

-- Where a sequence succeeds, both of its parts do.
pub >>=-eq-ok {ℓ κ} :
    {A : Type ℓ} {B : Type κ} (first : Result A) (rest : A → Result B) {b : B}
    → (first >>= rest) ≡ ok b
    → (a : A) × (first ≡ ok a) × (rest a ≡ ok b)
>>=-eq-ok (fail status) rest h = cc
>>=-eq-ok (ok value) rest h = (value, refl, h)

pub Result-cases {ℓ} :
    {A : Type ℓ} (r : Result A) → ((e : Status) × (r ≡ fail e)) ⊎ ((a : A) × (r ≡ ok a))
Result-cases (fail e) = inl (e, refl)
Result-cases (ok a) = inr (a, refl)
