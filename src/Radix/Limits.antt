-- ===== src/Radix/Limits.antt =====
-- The loops of `Insert` over the evictions, and the limits that they keep.
use inferflux.Prelude.{
  ℕ, zero, suc, ◌+◌, ◌==◌, ◌≤◌, ◌<◌, ◌≡◌, refl, ap, ◌∙◌, Bool, false, ◌||◌, Option, none, some,
  List, [], ◌∷◌, ◌++◌, ltb, if◌then◌else◌, length, arith, Bool-cases, inl, inr, length-append, ◌⊎◌,
}
use inferflux.Prelude.Int.{ℤ}
use inferflux.Radix.Defs.{
  Token, Node, Forest, leaf, tree, is_held, is_leaf, is_empty, Donation, new_leaf, insert_at,
  Visited, collect, oldest, holds_sequence, is_childless,
}
use inferflux.Radix.Ops.{
  Cache, evict_one, evict_sequence, limit_sequences, limit_size, add_leaf, take_over, leaf_added,
  grown, settle, insert,
}
use inferflux.Radix.Eviction.{Victim, nobody, victim, oldest-Victim}
use inferflux.Radix.Insertion.{insert_at-Inserts}
use inferflux.Radix.Prefixes.{IsKeyed, is_empty-length}
use inferflux.Radix.Keyed.{Inserts-IsKeyed}
use inferflux.Radix.Total.{total, weight_of, Inserts-total}
use inferflux.Radix.Counts.{
  one, live, one-IsFlat, live-IsFlat, leaf_added-IsCounted, IsCounted, evict_one-IsCounted,
  evict_sequence-IsCounted, limit_sequences-IsCounted,
}

length-collect_sequences : (f : Forest) → length (collect holds_sequence f) ≡ total live f
unfolding collect total
length-collect_sequences leaf = refl
length-collect_sequences (tree k i ch sib) = ground (
  arith,
  length-collect_sequences ch,
  length-collect_sequences sib,
  length-append (if is_held i.sequence_id then (i, is_leaf ch) ∷ [] else [])
      (collect holds_sequence ch ++ collect holds_sequence sib),
  length-append (collect holds_sequence ch) (collect holds_sequence sib),
)

length-collect_inner :
    (k : Token) (i : Node) (ch sib : Forest)
    → is_leaf ch ≡ false
    → length (collect is_childless (tree k i ch sib))
      ≡ length (collect is_childless ch) + length (collect is_childless sib)
unfolding collect
length-collect_inner k i ch sib h =
    ground (arith, length-append (collect is_childless ch) (collect is_childless sib))

length-collect_leaf :
    (k : Token) (i : Node) (sib : Forest) → 0 < length (collect is_childless (tree k i leaf sib))
unfolding collect
length-collect_leaf k i sib = omega arith

total_pos : (k : Token) (i : Node) (ch sib : Forest) → 0 < total one (tree k i ch sib)
unfolding total
total_pos k i ch sib = omega arith

no_nodes : 0 < total one leaf → ⊥
unfolding total
no_nodes h = absurd (omega arith)

-- A tree with a node has one without children.
some_leaf : (f : Forest) → 0 < total one f → 0 < length (collect is_childless f)
some_leaf leaf h = absurd (no_nodes h)
some_leaf (tree k i leaf sib) h = length-collect_leaf k i sib
some_leaf (tree k i (tree k' i' ch sib') sib) h = omega (
  arith,
  length-collect_inner k i (tree k' i' ch sib') sib refl,
  some_leaf (tree k' i' ch sib') (total_pos k' i' ch sib'),
)

module _ (alive : ℕ → Bool) where
  evict_sequence-live :
      (c : Cache)
      → IsCounted c
      → 0 < c.live_sequences
      → ((evict_sequence alive c).0.live_sequences + 1 ≡ c.live_sequences)
        × ((evict_sequence alive c).0.max_sequences ≡ c.max_sequences)
        × ((evict_sequence alive c).0.capacity ≡ c.capacity)
  unfolding evict_sequence
  evict_sequence-live c s l =
      go (oldest (collect holds_sequence c.root)) (oldest-Victim (collect holds_sequence c.root))
        refl
    where
      go :
          (o : Option (ℕ × Visited))
          → Victim (collect holds_sequence c.root) o
          → oldest (collect holds_sequence c.root) ≡ o
          → ((evict_sequence alive c).0.live_sequences + 1 ≡ c.live_sequences)
            × ((evict_sequence alive c).0.max_sequences ≡ c.max_sequences)
            × ((evict_sequence alive c).0.capacity ≡ c.capacity)
      go _ (nobody e) p =
          let empty : length (collect holds_sequence c.root) ≡ 0 = ap length e in
          absurd (omega (arith, length-collect_sequences c.root, s.live_counts))
      go _ (victim n v g) p = rw (p, evict_sequence) (omega arith, refl, refl)

  evict_one-size :
      (c : Cache)
      → IsCounted c
      → 0 < c.size
      → ((evict_one alive c).size + 1 ≡ c.size)
        × ((evict_one alive c).capacity ≡ c.capacity)
        × ((evict_one alive c).max_sequences ≡ c.max_sequences)
        × ((evict_one alive c).live_sequences ≤ c.live_sequences)
  unfolding evict_one
  evict_one-size c s l =
      go (oldest (collect is_childless c.root)) (oldest-Victim (collect is_childless c.root)) refl
    where
      go :
          (o : Option (ℕ × Visited))
          → Victim (collect is_childless c.root) o
          → oldest (collect is_childless c.root) ≡ o
          → ((evict_one alive c).size + 1 ≡ c.size)
            × ((evict_one alive c).capacity ≡ c.capacity)
            × ((evict_one alive c).max_sequences ≡ c.max_sequences)
            × ((evict_one alive c).live_sequences ≤ c.live_sequences)
      go _ (nobody e) p =
          let empty : length (collect is_childless c.root) ≡ 0 = ap length e in
          absurd (omega (arith, some_leaf c.root (omega (arith, s.size_counts))))
      go _ (victim n v g) p = rw (p, evict_one) (omega arith, refl, refl, ground arith)

  limit_sequences-ends :
      (n : ℕ) (c : Cache)
      → IsCounted c
      → c.live_sequences ≤ n
      → ((limit_sequences alive n c).live_sequences ≤ c.max_sequences)
        × ((limit_sequences alive n c).max_sequences ≡ c.max_sequences)
        × ((limit_sequences alive n c).capacity ≡ c.capacity)
  unfolding limit_sequences
  limit_sequences-ends zero c s h = (omega arith, refl, refl)
  limit_sequences-ends (suc n) c s h = elim (Bool-cases (ltb c.max_sequences c.live_sequences)) [
    | inl over ↦
        let (fewer, same, same') = evict_sequence-live c s (ground arith) in
        let (ends, same2, same2') =
          limit_sequences-ends n (evict_sequence alive c).0 (evict_sequence-IsCounted alive c s)
            (omega arith) in
        rw over (omega arith, same2 ∙ same, same2' ∙ same')
    | inr fits ↦ rw fits (ground arith, refl, refl)
  ]

  limit_size-ends :
      (n : ℕ) (c : Cache)
      → IsCounted c
      → c.size ≤ n
      → ((limit_size alive n c).size ≤ c.capacity)
        × ((limit_size alive n c).live_sequences ≤ c.live_sequences)
  unfolding limit_size
  limit_size-ends zero c s h = (omega arith, omega arith)
  limit_size-ends (suc n) c s h = elim (Bool-cases (ltb c.capacity c.size)) [
    | inl over ↦
        let (fewer, same, same', less) = evict_one-size c s (ground arith) in
        let (ends, less') =
          limit_size-ends n (evict_one alive c) (evict_one-IsCounted alive c s) (omega arith) in
        rw over (omega arith, omega arith)
    | inr fits ↦ rw fits (ground arith, omega arith)
  ]

  add_leaf-limits :
      (d : Donation) (c : Cache)
      → IsCounted (leaf_added alive d c)
      → ((add_leaf alive d c).live_sequences ≤ c.max_sequences)
        × ((add_leaf alive d c).size ≤ c.capacity)
  unfolding add_leaf
  add_leaf-limits d c s =
      let c1 = leaf_added alive d c in
      let (ends, same, same') = limit_sequences-ends c1.live_sequences c1 s (omega arith) in
      let c2 = limit_sequences alive c1.live_sequences c1 in
      let (ends', less) =
        limit_size-ends c2.size c2 (limit_sequences-IsCounted alive c1.live_sequences c1 s)
          (omega arith) in
      (omega arith, omega arith)

  settle-limits :
      (d : Donation) (f : Forest) (splits : ℕ) (o : Option Node) (c : Cache)
      → IsKeyed f
      → total one f + weight_of one o ≡ c.size + splits + 1
      → total live f + weight_of live o ≡ c.live_sequences + live (new_leaf d [])
      → let c' = settle alive d f splits o c in
        ((o ≡ none) × (c'.live_sequences ≤ c.max_sequences) × (c'.size ≤ c.capacity))
        ⊎ ((old : Node) × (o ≡ some old)
            × (c'.size ≡ c.size + splits)
            × (c'.live_sequences ≤ c.live_sequences + 1)
            × (c'.root ≡ f))
  unfolding settle take_over
  settle-limits d f splits none c key sizes lives =
      let (a, b) =
        add_leaf-limits d (grown alive d f splits c)
          (leaf_added-IsCounted alive d f splits c key (omega arith) (omega arith)) in
      inl (refl, a, b)
  settle-limits d f splits (some old) c key sizes lives = inr (old, refl, refl, ground arith, refl)

  -- What `Insert` leaves. If it has added a leaf, its loops have ended, by at most one eviction for each
  -- sequence and each node, and both limits hold. If not, the donation has gone to a node that was there
  -- or that a split has put in: then nothing is evicted, whatever the limits, the size grows by the nodes
  -- that the splits put in, and there is at most one more live sequence. The counts are those of the tree,
  -- the tokens and the blocks not empty, and the capacity not 0.
  pub insert-limits :
      (tokens : List Token) (table : List ℤ) (sequence_id : ℤ) (backend : Option ℕ) (c : Cache)
      → IsCounted c
      → (c.capacity == 0 || is_empty tokens || is_empty table) ≡ false
      → let c' = (insert alive tokens table sequence_id backend c).0 in
        let d : Donation = record {
          table = table;
          sequence = sequence_id;
          owner = backend;
          stamp = c.clock + 1;
        } in
        let p = (insert_at (length tokens) d tokens c.root).1 in
        ((p.replaced ≡ none) × (c'.live_sequences ≤ c.max_sequences) × (c'.size ≤ c.capacity))
        ⊎ ((old : Node) × (p.replaced ≡ some old)
            × (c'.size ≡ c.size + p.splits)
            × (c'.live_sequences ≤ c.live_sequences + 1)
            × (c'.root ≡ (insert_at (length tokens) d tokens c.root).0))
  unfolding insert
  insert-limits tokens table sequence_id backend c s goes_on =
      let d : Donation = record {
        table = table;
        sequence = sequence_id;
        owner = backend;
        stamp = c.clock + 1;
      } in
      let l = is_empty-length tokens (ground arith) in
      let r = insert_at (length tokens) d tokens c.root in
      let ins = insert_at-Inserts (length tokens) d tokens c.root l (omega arith) s.keyed in
      rw goes_on (
        settle-limits d r.0 r.1.splits r.1.replaced c
          (Inserts-IsKeyed d tokens c.root r ins s.keyed)
          (omega (arith, Inserts-total one one-IsFlat d tokens c.root r ins, s.size_counts))
          (omega (arith, Inserts-total live live-IsFlat d tokens c.root r ins, s.live_counts)))
