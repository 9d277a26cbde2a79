-- ===== src/Radix/Defs.antt =====
-- The tree of `RadixPrefixCache`, and the walks over it.
use inferflux.Prelude.{
  ℕ, zero, suc, ◌+◌, ◌-◌, ◌==◌, Bool, true, false, not, ◌&&◌, ◌||◌, Option, none, some, List, [],
  ◌∷◌, ◌++◌, ltb, leb, if◌then◌else◌, length, take, drop,
}
use inferflux.Prelude.Int.{ℤ, pos, negsuc}

-- Tokens are `int`s that are only compared.
abbrev pub Token : Type 0
Token = ℕ

-- `RadixNode` without its links. A backend is an address, and none is the null pointer.
pub record Node : Type 0 where
  pub edge : List Token
  pub block_table : List ℤ
  pub sequence_id : ℤ
  pub backend : Option ℕ
  pub last_used : ℕ

-- The `children` of a node in the order of an iteration over the map: the key of the first child, the
-- child, its own children, and the other children.
pub data Forest : Type 0 where
  leaf : Forest
  tree : Token → Node → Forest → Forest → Forest

-- `sequence_id >= 0`.
abbrev pub is_held : ℤ → Bool
is_held (pos n) = true
is_held (negsuc n) = false

abbrev pub is_leaf : Forest → Bool
is_leaf leaf = true
is_leaf (tree k i ch sib) = false

-- `CommonPrefixLength`, given the tokens from the offset on.
unfoldable pub common_prefix : List Token → List Token → ℕ
common_prefix [] ts = 0
common_prefix (x ∷ xs) [] = 0
common_prefix (x ∷ xs) (t ∷ ts) = if x == t then suc (common_prefix xs ts) else 0

-- `weak_ptr::lock`, by which backends are alive.
abbrev pub lock : (ℕ → Bool) → Option ℕ → Option ℕ
lock alive none = none
lock alive (some b) = if alive b then some b else none

abbrev pub is_same : Option ℕ → Option ℕ → Bool
is_same none none = true
is_same (some a) (some b) = a == b
is_same _ _ = false

-- The variables of the loop of `Lookup`.
pub record Walk : Type 0 where
  pub offset : ℕ
  pub blocks : List ℤ
  pub last_seq_id : ℤ
  pub last_seq_tokens : ℕ
  pub node_hit : Bool

abbrev pub start : Walk
start = record {
  offset = 0;
  blocks = [];
  last_seq_id = negsuc 0;
  last_seq_tokens = 0;
  node_hit = false;
}

-- The walk breaks off in a node.
abbrev pub broken : ℕ → Walk → Walk
broken common w = record w { offset = w.offset + common; node_hit = false }

-- The walk goes through a node.
abbrev pub entered : ℕ → Node → Walk → Walk
entered common i w =
    let offset = w.offset + common in
    if is_held i.sequence_id
    then record {
      offset = offset;
      blocks = i.block_table;
      last_seq_id = i.sequence_id;
      last_seq_tokens = offset;
      node_hit = true;
    }
    else record w { offset = offset; node_hit = true }

-- Whether the walk may go through a node.
abbrev pub admits : (ℕ → Bool) → Option ℕ → Node → ℕ → Bool
admits alive backend i common =
    leb (length i.edge) common
    && (not (is_held i.sequence_id) || is_same (lock alive i.backend) backend)

-- The loop of `Lookup`: what it finds.
unfoldable pub walk : (ℕ → Bool) → Option ℕ → List Token → Walk → Forest → Walk
walk alive backend [] w f = w
walk alive backend (t ∷ ts) w leaf = w
walk alive backend (t ∷ ts) w (tree k i ch sib) =
    let common = common_prefix i.edge (t ∷ ts) in
    let below = walk alive backend (drop common (t ∷ ts)) (entered common i w) ch in
    let beside = walk alive backend (t ∷ ts) w sib in
    if k == t then (if admits alive backend i common then below else broken common w) else beside

-- The same loop: the nodes that it touches, and the clock.
unfoldable pub touch : (ℕ → Bool) → Option ℕ → List Token → ℕ → Forest → Forest × ℕ
touch alive backend [] clock f = (f, clock)
touch alive backend (t ∷ ts) clock leaf = (leaf, clock)
touch alive backend (t ∷ ts) clock (tree k i ch sib) =
    let common = common_prefix i.edge (t ∷ ts) in
    let below = touch alive backend (drop common (t ∷ ts)) (clock + 1) ch in
    let beside = touch alive backend (t ∷ ts) clock sib in
    if k == t
    then (if admits alive backend i common
        then (tree k (record i { last_used = clock + 1 }) below.0 sib, below.1)
        else (tree k i ch sib, clock))
    else (tree k i ch beside.0, beside.1)

-- The node that `SplitEdge` puts in, and the one that it shortens.
abbrev pub intermediate : ℕ → Node → Node
intermediate common i = record {
  edge = take common i.edge;
  block_table = [];
  sequence_id = negsuc 0;
  backend = none;
  last_used = 0;
}

abbrev pub shortened : ℕ → Node → Node
shortened common i = record i { edge = drop common i.edge }

abbrev pub first_token : List Token → Token
first_token [] = 0
first_token (t ∷ ts) = t

-- `SplitEdge`: the children of the node that it puts in.
abbrev pub split_children : ℕ → Node → Forest → Forest
split_children common i ch = tree (first_token (drop common i.edge)) (shortened common i) ch leaf

-- What `Insert` gives to a node.
pub record Donation : Type 0 where
  pub table : List ℤ
  pub sequence : ℤ
  pub owner : Option ℕ
  pub stamp : ℕ

abbrev pub donated : Donation → Node → Node
donated d i = record {
  edge = i.edge;
  block_table = d.table;
  sequence_id = d.sequence;
  backend = d.owner;
  last_used = d.stamp;
}

abbrev pub new_leaf : Donation → List Token → Node
new_leaf d ts = record {
  edge = ts;
  block_table = d.table;
  sequence_id = d.sequence;
  backend = d.owner;
  last_used = d.stamp;
}

-- Where a donation went: the number of edges split, and the node that had its place.
pub record Placement : Type 0 where
  pub splits : ℕ
  pub replaced : Option Node

abbrev pub is_empty {ℓ} : {A : Type ℓ} → List A → Bool
is_empty [] = true
is_empty (x ∷ xs) = false

-- The loop of `Insert`, of at most so many rounds, and what it does at its end: the tokens are those from
-- the offset on, and there are some. Where an unordered map puts a new child is left open by the language,
-- here it is the end.
unfoldable pub insert_at : ℕ → Donation → List Token → Forest → Forest × Placement
insert_at zero d ts f = (f, record { splits = 0; replaced = none })
insert_at (suc rounds) d ts leaf =
    (tree (first_token ts) (new_leaf d ts) leaf leaf, record { splits = 0; replaced = none })
insert_at (suc rounds) d ts (tree k i ch sib) =
    let common = common_prefix i.edge ts in
    let is_split = ltb common (length i.edge) in
    let child = if is_split then intermediate common i else i in
    let children = if is_split then split_children common i ch else ch in
    let splits = if is_split then 1 else 0 in
    let rest = drop common ts in
    let below = insert_at rounds d rest children in
    let beside = insert_at (suc rounds) d ts sib in
    if k == first_token ts
    then (if is_empty rest
        then (
          tree k (donated d child) children sib,
          record { splits = splits; replaced = some child },
        )
        else (
          tree k child below.0 sib,
          record { splits = splits + below.1.splits; replaced = below.1.replaced },
        ))
    else (tree k i ch beside.0, beside.1)

-- A node with whether it has no children.
abbrev pub Visited : Type 0
Visited = Node × Bool

-- The criteria of `EvictOneSequenceLocked` and `EvictOne`, for any node but the root.
abbrev pub holds_sequence : Visited → Bool
holds_sequence v = is_held v.0.sequence_id

abbrev pub is_childless : Visited → Bool
is_childless v = v.1

-- `CollectNodes` from the children of the root on.
unfoldable pub collect : (Visited → Bool) → Forest → List Visited
collect criteria leaf = []
collect criteria (tree k i ch sib) =
    (if criteria (i, is_leaf ch) then (i, is_leaf ch) ∷ [] else [])
    ++ collect criteria ch
    ++ collect criteria sib

-- `std::min_element` by `last_used`: the first of the smallest, with its position.
unfoldable pub oldest_loop : ℕ → Visited → ℕ → List Visited → ℕ × Visited
oldest_loop j best i [] = (j, best)
oldest_loop j best i (v ∷ vs) =
    let is_older = ltb v.0.last_used best.0.last_used in
    oldest_loop (if is_older then i else j) (if is_older then v else best) (i + 1) vs

unfoldable pub oldest : List Visited → Option (ℕ × Visited)
oldest [] = none
oldest (v ∷ vs) = some (oldest_loop 0 v 1 vs)

-- A node after its sequence has been evicted.
abbrev pub cleared : Node → Node
cleared i = record i { block_table = []; sequence_id = negsuc 0 }

-- The tree after the eviction of the node at a position among those collected: a childless node is
-- erased from its parent, another is cleared.
unfoldable pub evict_at : (Visited → Bool) → ℕ → Forest → Forest
evict_at criteria n leaf = leaf
evict_at criteria n (tree k i ch sib) =
    let here = criteria (i, is_leaf ch) in
    let m = if here then n - 1 else n in
    let inside = length (collect criteria ch) in
    let below = evict_at criteria m ch in
    let beside = evict_at criteria (m - inside) sib in
    if here && n == 0
    then (if is_leaf ch then sib else tree k (cleared i) ch sib)
    else (if ltb m inside then tree k i below sib else tree k i ch beside)
