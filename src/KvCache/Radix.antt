-- ===== src/KvCache/Radix.antt =====
-- The radix tree of src/kv_cache.c: `common`, `child_find`, `vg_radix_lookup`, `vg_radix_insert` and
-- `vg_radix_invalidate`. The type `S` stands for the snapshots, which are sequences of their own.
pub mod Prefix
pub mod Split
pub mod Insert
pub mod Rounds
pub mod Lookup
pub mod Invalidate
use etha_jhol.Common.{
  ℕ, zero, suc, ◌+◌, Bool, true, false, Option, none, some, List, [], ◌∷◌, ltb, leb, ◌==◌,
  if◌then◌else◌, length, take, drop,
}
use etha_jhol.Common.Result.{Result, ok, fail, invalid}

-- What a `VG_RadixNode` carries beside its tokens and children.
pub record Mark {ℓ} (S : Type ℓ) : Type ℓ where
  pub snapshot : Option S
  pub semantic_fingerprint : ℕ
  pub tainted : Bool

-- The child array of a `VG_RadixNode`, one node after the other: `node tokens mark child rest` is a
-- node with its own children `child`, and the nodes `rest` behind it in the array.
pub data Nodes {ℓ} (S : Type ℓ) : Type ℓ where
  no_nodes : Nodes S
  node : List ℕ → Mark S → Nodes S → Nodes S → Nodes S

-- `VG_Radix`: the root has no tokens.
pub record Radix {ℓ} (S : Type ℓ) : Type ℓ where
  pub root : Mark S
  pub child : Nodes S

-- A node as `calloc` leaves it.
abbrev pub blank {ℓ} : {S : Type ℓ} → Mark S
blank = record { snapshot = none; semantic_fingerprint = 0; tainted = false }

-- `vg_radix_open`
abbrev pub radix_open {ℓ} : {S : Type ℓ} → Radix S
radix_open = record { root = blank; child = no_nodes }

-- `common`
unfoldable pub common : List ℕ → List ℕ → ℕ
common [] b = 0
common (x ∷ a) [] = 0
common (x ∷ a) (y ∷ b) = let rest = common a b in if x == y then suc rest else 0

-- The test of `child_find`: `count && tokens[0] == token`.
unfoldable pub starts : List ℕ → ℕ → Bool
starts [] token = false
starts (x ∷ tokens) token = x == token

-- `n->snapshot && !n->tainted`, with the snapshot.
unfoldable pub usable {ℓ} : {S : Type ℓ} → Mark S → Option S
usable m = if m.tainted then none else m.snapshot

unfoldable pub better {ℓ} : {S : Type ℓ} → Option S → ℕ → Option (ℕ × S) → Option (ℕ × S)
better none pos best = best
better (some s) pos best = some (pos, s)

-- The loop of `vg_radix_lookup` among the children of a node; `pos` tokens are matched before.
unfoldable pub lookup_from {ℓ} :
    {S : Type ℓ} → Nodes S → List ℕ → ℕ → Option (ℕ × S) → Option (ℕ × S)
unfolding common starts usable better
lookup_from no_nodes ts pos best = best
lookup_from (node tokens m child rest) [] pos best = best
lookup_from (node tokens m child rest) (t ∷ ts) pos best =
    let k = common (t ∷ ts) tokens in
    let deeper = lookup_from child (drop k (t ∷ ts)) (pos + k) (better (usable m) (pos + k) best) in
    let beside = lookup_from rest (t ∷ ts) pos best in
    if starts tokens t then (if k == length tokens then deeper else best) else beside

-- `vg_radix_lookup`: the tokens matched and the snapshot; `none` leaves 0 and NULL.
unfoldable pub radix_lookup {ℓ} : {S : Type ℓ} → Radix S → List ℕ → Option (ℕ × S)
unfolding lookup_from
radix_lookup r ts = lookup_from r.child ts 0 none

-- The edge is split behind `k` tokens: the tail takes over the mark and the children.
unfoldable pub split_edge {ℓ} :
    {S : Type ℓ} → ℕ → List ℕ → Mark S → Nodes S → Nodes S → List ℕ → Mark S → Nodes S
split_edge k tokens m child rest ts new =
    if k == length ts
    then node (take k tokens) new (node (drop k tokens) m child no_nodes) rest
    else node (take k tokens) blank
        (node (drop k tokens) m child (node (drop k ts) new no_nodes no_nodes)) rest

-- The loop of `vg_radix_insert` among the children of a node, with one token or more left; the mark
-- of the node that it ends at is then `new`.
unfoldable pub place {ℓ} : {S : Type ℓ} → Nodes S → List ℕ → Mark S → Nodes S
unfolding common starts split_edge
place no_nodes ts new = node ts new no_nodes no_nodes
place (node tokens m child rest) [] new = node tokens m child rest
place (node tokens m child rest) (t ∷ ts) new =
    let k = common (t ∷ ts) tokens in
    let deeper = place child (drop k (t ∷ ts)) new in
    let beside = place rest (t ∷ ts) new in
    if starts tokens t
    then (if ltb k (length tokens)
        then split_edge k tokens m child rest (t ∷ ts) new
        else if k == length (t ∷ ts)
        then node tokens new child rest
        else node tokens m deeper rest)
    else node tokens m child beside

-- No token left: the mark of the root.
unfoldable pub insert_at {ℓ} : {S : Type ℓ} → Radix S → List ℕ → Mark S → Radix S
unfolding place
insert_at r [] new = record r { root = new }
insert_at r (t ∷ ts) new = record r { child = place r.child (t ∷ ts) new }

-- `vg_radix_insert` of the first `token_count` tokens of a sequence; `snapshot` is the fork that it
-- takes of that sequence.
unfoldable pub radix_insert {ℓ} :
    {S : Type ℓ} → Radix S → List ℕ → ℕ → S → ℕ → Bool → Result (Radix S)
unfolding insert_at
radix_insert r tokens token_count snapshot fp tainted =
    if leb token_count (length tokens)
    then ok (
        insert_at r (take token_count tokens)
          (record { snapshot = some snapshot; semantic_fingerprint = fp; tainted = tainted }))
    else fail invalid

-- `node_invalidate_all` below the children of a node.
unfoldable pub invalidate_all {ℓ} : {S : Type ℓ} → Nodes S → Nodes S
invalidate_all no_nodes = no_nodes
invalidate_all (node tokens m child rest) =
    node tokens (record m { snapshot = none }) (invalidate_all child) (invalidate_all rest)

-- `vg_radix_invalidate`; it ignores both identities.
unfoldable pub radix_invalidate {ℓ} : {S : Type ℓ} → Radix S → ℕ → ℕ → Radix S
unfolding invalidate_all
radix_invalidate r model_identity adapter_identity = record {
  root = record r.root { snapshot = none };
  child = invalidate_all r.child;
}
