-- ===== src/ModelProbe/Rules.antt =====
-- How checks in a row end: with a clean log and what they found, or with a refused log.
use etha_jhol.Common.{
  ℕ, ◌≤◌, ◌≡◌, inl, inr, refl, sym, subst, arith, Bool, true, false, ◌||◌, Option, none, some, List,
  ltb, if◌then◌else◌, length, ltb→lt, length-append, Bool-cases,
}
use etha_jhol.Common.Result.{Status}
use etha_jhol.ModelProbe.Checks.{Verdict, go, stop, Check, ◌>=>◌, refuse}
use etha_jhol.ModelProbe.Meta.{Cause, Log, new_log, fail_with, add_quant, has_name, clip}
use etha_jhol.Quant.{quant_info}

-- A log of a probe that no check has ended.
pub record Clean (p : Log) : Type 0 where
  pub passed : p.passed ≡ true
  pub status : p.status ≡ none
  pub detail : p.detail ≡ none
  pub names : length p.quant_names ≤ 12

-- A log of a probe that a check has ended, with a status and a cause.
pub record Refused (p : Log) : Type 0 where
  pub passed : p.passed ≡ false
  pub st : Status
  pub status : p.status ≡ some st
  pub cause : Cause
  pub detail : p.detail ≡ some cause
  pub names : length p.quant_names ≤ 12

pub new_log-Clean : Clean new_log
new_log-Clean = record { passed = refl; status = refl; detail = refl; names = omega arith }

-- After a check, the log is still clean and the fact holds, or the probe is refused.
pub data Outcome (P : Type 0) : Verdict → Type 0 where
  goes : (p : Log) → Clean p → P → Outcome P (go p)
  stops : (p : Log) → Refused p → Outcome P (stop p)

pub record Sound (c : Check) (P : Type 0) : Type 0 where
  pub at : (p : Log) → Clean p → Outcome P (c p)

pub fail_with-Refused :
    (p : Log) (st : Status) (tensor : Option (List ℕ)) (cause : Cause)
    → Clean p
    → Refused (fail_with p st tensor cause)
unfolding fail_with
fail_with-Refused p st tensor cause h =
    let made : fail_with p st tensor cause ≡ record p {
      passed = false;
      status = some st;
      detail_tensor = elim tensor [ none ↦ p.detail_tensor | some name ↦ some (clip 96 name) ];
      detail = some cause;
    } =
      rw (fail_with, h.status) refl in
    subst Refused (sym made) (record {
      passed = refl;
      st = st;
      status = refl;
      cause = cause;
      detail = refl;
      names = h.names;
    })

pub refused :
    {P : Type 0} (p : Log) (st : Status) (tensor : Option (List ℕ)) (cause : Cause)
    → Clean p
    → Outcome P (refuse st tensor cause p)
refused p st tensor cause h =
    stops (fail_with p st tensor cause) (fail_with-Refused p st tensor cause h)

also : {P Q : Type 0} {s : Verdict} → P → Outcome Q s → Outcome (P × Q) s
also x (goes p h y) = goes p h (x, y)
also x (stops p h) = stops p h

>>-Outcome :
    {P Q : Type 0} (d : Check) {s : Verdict}
    → Outcome P s
    → Sound d Q
    → Outcome (P × Q) (elim s [ go q ↦ d q | stop q ↦ stop q ])
>>-Outcome d (goes p h x) sound = also x (sound.at p h)
>>-Outcome d (stops p h) sound = stops p h

pub >=>-Sound : {P Q : Type 0} {c d : Check} → Sound c P → Sound d Q → Sound (c >=> d) (P × Q)
>=>-Sound {d = d} h k = record { at = λ p fresh. >>-Outcome d (h.at p fresh) k }

weaken-Outcome : {P Q : Type 0} {s : Verdict} → (P → Q) → Outcome P s → Outcome Q s
weaken-Outcome f (goes p h x) = goes p h (f x)
weaken-Outcome f (stops p h) = stops p h

pub weaken-Sound : {P Q : Type 0} {c : Check} → (P → Q) → Sound c P → Sound c Q
weaken-Sound f h = record { at = λ p fresh. weaken-Outcome f (h.at p fresh) }

pub add_quant-Clean : (p : Log) (type : ℕ) → Clean p → Clean (add_quant p type)
unfolding add_quant
add_quant-Clean p type h =
    let name : Option ℕ = elim (quant_info type) [ none ↦ none | some q ↦ some q.kind ] in
    elim (Bool-cases (has_name name p.quant_names)) [
      | inl e ↦ rw (add_quant, e) h
      | inr e ↦ elim (Bool-cases (ltb (length p.quant_names) 12)) [
        | inl room ↦
            rw (add_quant, e, room)
              (record {
                passed = h.passed;
                status = h.status;
                detail = h.detail;
                names = rw (length-append) (omega (arith, ltb→lt _ _ room));
              })
        | inr full ↦ rw (add_quant, e, full) h
      ]
    ]

-- Under a test that refuses.
pub unless :
    {P : Type 0} (b : Bool) (p : Log) (st : Status) (tensor : Option (List ℕ)) (cause : Cause)
    {s : Verdict}
    → Clean p
    → (b ≡ false → Outcome P s)
    → Outcome P (if b then refuse st tensor cause p else s)
unless true p st tensor cause h k = refused p st tensor cause h
unless false p st tensor cause h k = k refl

pub neither : (a b : Bool) → (a || b) ≡ false → (a ≡ false) × (b ≡ false)
neither a b h = ground arith
