-- ===== src/Common/Numbers.antt =====
-- A test at every number below a bound, and powers of two.
use Prim.Native.Nat.{ℕ, zero, suc, ◌+◌, ◌^◌, ◌<◌}
use mathlib.Core.Path.{◌≡◌}
use mathlib.Core.Bool.{Bool, true, false}
use native.Mathlib.Nat.{pow-suc}
use native.Mathlib.Omega.{arith}
use etha_jhol.Common.Tests.{if◌then◌else◌}

-- Whether the test passes at the `n` numbers from `start` on.
unfoldable pub passes : ℕ → ℕ → (ℕ → Bool) → Bool
passes start zero test = true
passes start (suc n) test = if test start then passes (suc start) n test else false

passes-at :
    (start n d : ℕ) (test : ℕ → Bool) → d < n → passes start n test ≡ true → test (start + d) ≡ true
unfolding passes
passes-at start zero d test lt h = absurd (omega arith)
passes-at start (suc n) zero test lt h = ground arith
passes-at start (suc n) (suc d) test lt h =
    let more : passes (suc start) n test ≡ true = ground arith in
    let next : start + suc d ≡ suc start + d = omega arith in
    rw next (passes-at (suc start) n d test (omega arith) more)

pub passes-below :
    (n : ℕ) (test : ℕ → Bool) {x : ℕ} → passes 0 n test ≡ true → x < n → test x ≡ true
passes-below n test {x} h lt =
    let same : 0 + x ≡ x = omega arith in rw same at (passes-at 0 n x test lt h)

pub two_pow_pos : (k : ℕ) → 0 < 2 ^ k
two_pow_pos zero = omega arith
two_pow_pos (suc k) = omega (arith, two_pow_pos k, pow-suc 2 k)
