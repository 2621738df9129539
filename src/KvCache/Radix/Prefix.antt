-- ===== src/KvCache/Radix/Prefix.antt =====
-- Prefixes of token lists, and the tree as a map from prefixes to marks.
use etha_jhol.Common.{
  ℕ, ◌≡◌, inl, inr, refl, ap, Bool, true, false, Option, none, some, List, [], ◌∷◌, ◌++◌, arith,
  ◌==◌, if◌then◌else◌, length, list_eq, ==_iff, Bool-cases,
}
use etha_jhol.KvCache.Radix.{Mark, Nodes, no_nodes, node, common, starts}

-- What is left of a list behind a prefix.
unfoldable pub strip : List ℕ → List ℕ → Option (List ℕ)
strip [] q = some q
strip (x ∷ p) [] = none
strip (x ∷ p) (y ∷ q) = if x == y then strip p q else none

pub strip-append : (p q : List ℕ) → strip p (p ++ q) ≡ some q
unfolding strip
strip-append [] q = refl
strip-append (x ∷ p) q = ground (arith, strip-append p q)

pub strip-some : (p q : List ℕ) {r : List ℕ} → strip p q ≡ some r → q ≡ p ++ r
unfolding strip
strip-some [] q h = ground arith
strip-some (x ∷ p) [] h = cc
strip-some (x ∷ p) (y ∷ q) {r} h = elim (Bool-cases (x == y)) [
  | inl e ↦
      let rest : strip p q ≡ some r = rw e at h in
      let same : x ≡ y = (==_iff x y).0 e in rw (same, strip-some p q rest)
  | inr e ↦ absurd (cc (rw e at h))
]

pub strip-append-append : (p l q : List ℕ) → strip (p ++ l) (p ++ q) ≡ strip l q
unfolding strip
strip-append-append [] l q = refl
strip-append-append (x ∷ p) l q = ground (arith, strip-append-append p l q)

pub strip-append-none : (p l q : List ℕ) → strip p q ≡ none → strip (p ++ l) q ≡ none
unfolding strip
strip-append-none [] l q h = cc
strip-append-none (x ∷ p) l [] h = refl
strip-append-none (x ∷ p) l (y ∷ q) h = ground (arith, strip-append-none p l q)

pub list_eq-append : (p q r : List ℕ) → list_eq (p ++ q) (p ++ r) ≡ list_eq q r
list_eq-append [] q r = refl
list_eq-append (x ∷ p) q r = ground (arith, list_eq-append p q r)

pub strip-none-list_eq : (p q r : List ℕ) → strip p q ≡ none → list_eq q (p ++ r) ≡ false
unfolding strip
strip-none-list_eq [] q r h = cc
strip-none-list_eq (x ∷ p) [] r h = refl
strip-none-list_eq (x ∷ p) (y ∷ q) r h = ground (arith, strip-none-list_eq p q r)

-- Two lists part behind their common prefix `p`.
pub record Parts (a b : List ℕ) : Type 0 where
  pub prefix : List ℕ
  pub left : List ℕ
  pub right : List ℕ
  pub a_eq : a ≡ prefix ++ left
  pub b_eq : b ≡ prefix ++ right
  pub count : common a b ≡ length prefix
  pub apart : (y : ℕ) (r : List ℕ) → right ≡ y ∷ r → starts left y ≡ false

pub parts : (a b : List ℕ) → Parts a b
unfolding common starts
parts [] b = record {
  prefix = [];
  left = [];
  right = b;
  a_eq = refl;
  b_eq = refl;
  count = refl;
  apart = λ y r e. refl;
}
parts (x ∷ a) [] = record {
  prefix = [];
  left = x ∷ a;
  right = [];
  a_eq = refl;
  b_eq = refl;
  count = refl;
  apart = λ y r e. cc;
}
parts (x ∷ a) (y ∷ b) = elim (Bool-cases (x == y)) [
  | inr h ↦ record {
    prefix = [];
    left = x ∷ a;
    right = y ∷ b;
    a_eq = refl;
    b_eq = refl;
    count = ground arith;
    apart = λ z r e. ground arith;
  }
  | inl h ↦
      let w = parts a b in
      record {
        prefix = x ∷ w.prefix;
        left = w.left;
        right = w.right;
        a_eq = ap (◌∷◌ x) w.a_eq;
        b_eq = ground (arith, w.b_eq);
        count = ground (arith, w.count);
        apart = w.apart;
      }
]

-- The mark that the tree holds at exactly the prefix `q`, if the node there has a snapshot.
unfoldable pub visible {ℓ} : {S : Type ℓ} → Mark S → Option (Mark S)
visible m = elim m.snapshot [ none ↦ none | some s ↦ some m ]

unfoldable pub stored {ℓ} : {S : Type ℓ} → Nodes S → List ℕ → Option (Mark S)
unfolding strip visible
stored no_nodes q = none
stored (node tokens m child rest) q = elim (strip tokens q) [
  | none ↦ stored rest q
  | some [] ↦ visible m
  | some (x ∷ r) ↦ stored child (x ∷ r)
]

-- No node of the array starts with the token.
abbrev pub Absent {ℓ} : {S : Type ℓ} → ℕ → Nodes S → Type 0
Absent t no_nodes = Unit
Absent t (node tokens m child rest) = (starts tokens t ≡ false) × Absent t rest

-- Every node has a token, and no two siblings start with the same one.
abbrev pub IsTrie {ℓ} : {S : Type ℓ} → Nodes S → Type 0
IsTrie no_nodes = Unit
IsTrie (node [] m child rest) = ◌≡◌ {A = Bool} true false
IsTrie (node (t ∷ tokens) m child rest) = Absent t rest × IsTrie child × IsTrie rest
