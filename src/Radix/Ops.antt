-- ===== src/Radix/Ops.antt =====
-- The methods of `RadixPrefixCache`.
use inferflux.Prelude.{
  ℕ, zero, suc, ◌+◌, ◌-◌, ◌*◌, ◌==◌, Bool, true, false, not, ◌&&◌, ◌||◌, Option, none, some, List,
  [], ◌∷◌, ◌++◌, ltb, if◌then◌else◌, length,
}
use inferflux.Prelude.Int.{ℤ, pos, negsuc}
use inferflux.Radix.Defs.{
  Token, Node, Forest, leaf, is_held, lock, is_empty, Walk, start, walk, touch, Donation, insert_at,
  Visited, holds_sequence, is_childless, collect, oldest, evict_at,
}

abbrev pub is_equal : ℤ → ℤ → Bool
is_equal (pos a) (pos b) = a == b
is_equal (negsuc a) (negsuc b) = a == b
is_equal _ _ = false

unfoldable pub contains : ℕ → List ℕ → Bool
contains n [] = false
contains n (m ∷ ms) = m == n || contains n ms

-- The calls that the cache makes: `ReleaseBlocksRef`, `FreeSequence` and the eviction callback.
pub data Effect : Type 0 where
  releases : List ℤ → Effect
  frees : ℕ → ℤ → Effect
  retires : ℤ → Option ℕ → Effect

-- `RadixPrefixCache`, with the calls it has made so far.
pub record Cache : Type 0 where
  pub has_kv_cache : Bool
  pub has_callback : Bool
  pub capacity : ℕ
  pub max_sequences : ℕ
  pub size : ℕ
  pub live_sequences : ℕ
  pub clock : ℕ
  pub root : Forest
  pub effects : List Effect

-- The constructor.
unfoldable pub init : Bool → Bool → ℕ → ℕ → Cache
init has_kv_cache has_callback capacity max_sequences = record {
  has_kv_cache = has_kv_cache;
  has_callback = has_callback;
  capacity = capacity;
  max_sequences = max_sequences;
  size = 0;
  live_sequences = 0;
  clock = 0;
  root = leaf;
  effects = [];
}

-- `RadixLookupResult`, with the Boolean that `Lookup` returns.
pub record Result : Type 0 where
  pub is_hit : Bool
  pub block_table : List ℤ
  pub sequence_id : ℤ
  pub matched_tokens : ℕ

abbrev pub nothing : Result
nothing = record { is_hit = false; block_table = []; sequence_id = negsuc 0; matched_tokens = 0 }

-- What `Lookup` makes of the end of its loop. A walk that has hit a node has left the root.
unfoldable pub conclude : Walk → Result
conclude w =
    if w.node_hit && is_held w.last_seq_id && not (is_empty w.blocks)
    then record {
      is_hit = true;
      block_table = w.blocks;
      sequence_id = w.last_seq_id;
      matched_tokens = w.last_seq_tokens;
    }
    else record nothing { matched_tokens = w.offset }

module _ (alive : ℕ → Bool) where
  -- `Lookup`.
  unfoldable pub lookup : List Token → Option ℕ → Cache → Cache × Result
  lookup tokens backend c =
      let touched = touch alive backend tokens c.clock c.root in
      if c.capacity == 0 || is_empty tokens then (c, nothing) else (
        record c { root = touched.0; clock = touched.1 },
        conclude (walk alive backend tokens start c.root),
      )

  -- The backend frees a sequence, and the callback hears of it.
  unfoldable pub retire : Cache → Node → List Effect
  retire c i =
      elim (lock alive i.backend) [ none ↦ [] | some b ↦ frees b i.sequence_id ∷ [] ]
      ++ (if c.has_callback then retires i.sequence_id (lock alive i.backend) ∷ [] else [])

  -- The references of a table go back to the cache of blocks.
  abbrev pub release : Cache → Node → List Effect
  release c i =
      if c.has_kv_cache && not (is_empty i.block_table) then releases i.block_table ∷ [] else []

  -- `EvictOne`.
  unfoldable pub evict_one : Cache → Cache
  evict_one c = elim (oldest (collect is_childless c.root)) [
    | none ↦ c
    | some (n, v) ↦ record c {
      root = evict_at is_childless n c.root;
      size = c.size - 1;
      live_sequences = if is_held v.0.sequence_id then c.live_sequences - 1 else c.live_sequences;
      effects =
          c.effects ++ (if is_held v.0.sequence_id then retire c v.0 else []) ++ release c v.0;
    }
  ]

  -- `EvictOneSequenceLocked`: the sequence that is retired, if there is one.
  unfoldable pub evict_sequence : Cache → Cache × Option ℤ
  evict_sequence c = elim (oldest (collect holds_sequence c.root)) [
    | none ↦ (c, none)
    | some (n, v) ↦ (
      record c {
        root = evict_at holds_sequence n c.root;
        size = if v.1 then c.size - 1 else c.size;
        live_sequences = c.live_sequences - 1;
        effects = c.effects ++ retire c v.0 ++ release c v.0;
      },
      some v.0.sequence_id,
    )
  ]

  -- The loops of `Insert` over the evictions, of at most so many rounds.
  unfoldable pub limit_sequences : ℕ → Cache → Cache
  limit_sequences zero c = c
  limit_sequences (suc rounds) c =
      let rest = limit_sequences rounds (evict_sequence c).0 in
      if ltb c.max_sequences c.live_sequences then rest else c

  unfoldable pub limit_size : ℕ → Cache → Cache
  limit_size zero c = c
  limit_size (suc rounds) c =
      let rest = limit_size rounds (evict_one c) in if ltb c.capacity c.size then rest else c

  -- The counts with the leaf that has been added.
  abbrev pub leaf_added : Donation → Cache → Cache
  leaf_added d c = record c {
    live_sequences = if is_held d.sequence then c.live_sequences + 1 else c.live_sequences;
    size = c.size + 1;
  }

  -- What `Insert` does when it has added a leaf: the loops go on while there is too much, and each of
  -- their rounds takes one away.
  unfoldable pub add_leaf : Donation → Cache → Cache
  add_leaf d c =
      let c1 = leaf_added d c in
      let c2 = limit_sequences c1.live_sequences c1 in limit_size c2.size c2

  -- What `Insert` does when the tokens end at a node that was there, or that a split has put in.
  unfoldable pub take_over : Donation → Node → Cache → Cache
  take_over d old c =
      let is_ousted = is_held old.sequence_id && not (is_equal old.sequence_id d.sequence) in
      let live = if is_ousted then c.live_sequences - 1 else c.live_sequences in
      record c {
        live_sequences =
            if is_held d.sequence && not (is_equal d.sequence old.sequence_id)
            then live + 1
            else live;
        effects = c.effects ++ release c old ++ (if is_ousted then retire c old else []);
      }

  abbrev pub grown : Donation → Forest → ℕ → Cache → Cache
  grown d f splits c = record c { root = f; size = c.size + splits; clock = d.stamp }

  -- `Insert` after its loop, which has made a tree by so many splits.
  unfoldable pub settle : Donation → Forest → ℕ → Option Node → Cache → Cache
  settle d f splits none c = add_leaf d (grown d f splits c)
  settle d f splits (some old) c = take_over d old (grown d f splits c)

  -- `Insert`.
  unfoldable pub insert : List Token → List ℤ → ℤ → Option ℕ → Cache → Cache × Bool
  insert tokens table sequence_id backend c =
      let d : Donation = record {
        table = table;
        sequence = sequence_id;
        owner = backend;
        stamp = c.clock + 1;
      } in
      let placed = insert_at (length tokens) d tokens c.root in
      if c.capacity == 0 || is_empty tokens || is_empty table
      then (c, false)
      else (settle d placed.0 placed.1.splits placed.1.replaced c, true)

-- `Size`, `LiveSequences` and `ReuseEnabled`.
unfoldable pub size_of : Cache → ℕ
size_of c = c.size

unfoldable pub live_of : Cache → ℕ
live_of c = c.live_sequences

unfoldable pub reuse_enabled : Cache → Bool
reuse_enabled c = ltb 0 c.capacity && ltb 0 c.max_sequences

-- The set of block ids of `MemorySnapshot`, in the order of their first insertion.
unfoldable pub add_block : List ℕ → ℤ → List ℕ
add_block seen (negsuc n) = seen
add_block seen (pos n) = if contains n seen then seen else seen ++ n ∷ []

unfoldable pub add_blocks : List ℕ → List ℤ → List ℕ
add_blocks seen [] = seen
add_blocks seen (b ∷ bs) = add_blocks (add_block seen b) bs

unfoldable pub retained_blocks : List ℕ → List Visited → List ℕ
retained_blocks seen [] = seen
retained_blocks seen (v ∷ vs) = retained_blocks (add_blocks seen v.0.block_table) vs

-- `RadixPrefixMemorySnapshot`.
pub record Snapshot : Type 0 where
  pub unique_retained_blocks : ℕ
  pub retained_bytes : ℕ
  pub live_sequences : ℕ

-- `MemorySnapshot`, given `PageSizeBytes`.
unfoldable pub memory_snapshot : ℕ → Cache → Snapshot
memory_snapshot page_size_bytes c =
    let blocks = length (retained_blocks [] (collect holds_sequence c.root)) in
    record {
      unique_retained_blocks = blocks;
      retained_bytes = if c.has_kv_cache then blocks * page_size_bytes else 0;
      live_sequences = c.live_sequences;
    }
