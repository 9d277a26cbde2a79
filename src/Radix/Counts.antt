-- ===== src/Radix/Counts.antt =====
-- The size and the number of live sequences that the cache keeps, against its tree.
use inferflux.Prelude.{
  ℕ, zero, suc, ◌+◌, ◌-◌, ◌==◌, ◌≤◌, ◌≡◌, refl, sym, ◌∙◌, Bool, not, ◌&&◌, ◌||◌, Option, none, some,
  List, [], ltb, if◌then◌else◌, length, arith, Bool-cases, inl, inr,
}
use inferflux.Prelude.Int.{ℤ, pos, negsuc}
use inferflux.Radix.Defs.{
  Token, Node, Forest, is_held, is_empty, Donation, new_leaf, insert_at, Visited, collect, oldest,
  evict_at, holds_sequence, is_childless,
}
use inferflux.Radix.Ops.{
  Cache, init, lookup, evict_one, evict_sequence, limit_sequences, limit_size, add_leaf, take_over,
  leaf_added, grown, settle, insert, is_equal,
}
use inferflux.Radix.Insertion.{insert_at-Inserts}
use inferflux.Radix.Prefixes.{IsKeyed, is_empty-length}
use inferflux.Radix.Eviction.{
  evict_at-Evicts, Evicts-criteria, Victim, nobody, victim, oldest-Victim,
}
use inferflux.Radix.Total.{
  total, IsFlat, weight_of, Inserts-total, Inserts-replaced, touch-total, Evicts-total,
}
use inferflux.Radix.Keyed.{Inserts-IsKeyed, Evicts-IsKeyed, touch-IsKeyed}

abbrev pub one : Node → ℕ
one i = 1

abbrev pub live : Node → ℕ
live i = if is_held i.sequence_id then 1 else 0

pub one-IsFlat : IsFlat one
one-IsFlat = record { any_edge = λ i e. refl; any_time = λ i t. refl }

pub live-IsFlat : IsFlat live
live-IsFlat = record { any_edge = λ i e. refl; any_time = λ i t. refl }

-- The counts are those of the nodes in the tree, and every edge begins with its key.
pub record IsCounted (c : Cache) : Type 0 where
  pub keyed : IsKeyed c.root
  pub size_counts : c.size ≡ total one c.root
  pub live_counts : c.live_sequences ≡ total live c.root

pub init-IsCounted :
    (kv callback : Bool) (capacity sequences : ℕ) → IsCounted (init kv callback capacity sequences)
unfolding init total
init-IsCounted kv callback capacity sequences = record {
  keyed = tt;
  size_counts = refl;
  live_counts = refl;
}

-- The count of live sequences when a node passes from one sequence to another.
taken_over :
    (a b : ℤ) (n t : ℕ)
    → t + (if is_held b then 1 else 0) ≡ n + (if is_held a then 1 else 0)
    → (if is_held b then 1 else 0) ≤ n
    → let m = if is_held b && not (is_equal b a) then n - 1 else n in
      (if is_held a && not (is_equal a b) then m + 1 else m) ≡ t
taken_over (pos a) (pos b) n t e l = ground arith
taken_over (pos a) (negsuc b) n t e l = ground arith
taken_over (negsuc a) (pos b) n t e l = ground arith
taken_over (negsuc a) (negsuc b) n t e l = ground arith

module _ (alive : ℕ → Bool) where
  pub evict_one-IsCounted : (c : Cache) → IsCounted c → IsCounted (evict_one alive c)
  unfolding evict_one
  evict_one-IsCounted c s =
      go (oldest (collect is_childless c.root)) (oldest-Victim (collect is_childless c.root)) refl
    where
      go :
          (o : Option (ℕ × Visited))
          → Victim (collect is_childless c.root) o
          → oldest (collect is_childless c.root) ≡ o
          → IsCounted (evict_one alive c)
      go _ (nobody e) p = rw (p, evict_one) s
      go _ (victim n v g) p =
          let ev = evict_at-Evicts is_childless n c.root v g in
          let a = Evicts-total one is_childless c.root (evict_at is_childless n c.root) v ev in
          let b = Evicts-total live is_childless c.root (evict_at is_childless n c.root) v ev in
          let childless = Evicts-criteria is_childless c.root _ v ev in
          rw (p, evict_one)
            (record {
              keyed = Evicts-IsKeyed is_childless c.root _ v ev s.keyed;
              size_counts = ground (arith, a, childless, s.size_counts);
              live_counts = ground (arith, b, childless, s.live_counts);
            })

  pub evict_sequence-IsCounted : (c : Cache) → IsCounted c → IsCounted (evict_sequence alive c).0
  unfolding evict_sequence
  evict_sequence-IsCounted c s =
      go (oldest (collect holds_sequence c.root)) (oldest-Victim (collect holds_sequence c.root))
        refl
    where
      go :
          (o : Option (ℕ × Visited))
          → Victim (collect holds_sequence c.root) o
          → oldest (collect holds_sequence c.root) ≡ o
          → IsCounted (evict_sequence alive c).0
      go _ (nobody e) p = rw (p, evict_sequence) s
      go _ (victim n v g) p =
          let ev = evict_at-Evicts holds_sequence n c.root v g in
          let a = Evicts-total one holds_sequence c.root (evict_at holds_sequence n c.root) v ev in
          let b = Evicts-total live holds_sequence c.root (evict_at holds_sequence n c.root) v ev in
          let held = Evicts-criteria holds_sequence c.root _ v ev in
          rw (p, evict_sequence)
            (record {
              keyed = Evicts-IsKeyed holds_sequence c.root _ v ev s.keyed;
              size_counts = ground (arith, a, s.size_counts);
              live_counts = ground (arith, b, held, s.live_counts);
            })

  pub limit_sequences-IsCounted :
      (n : ℕ) (c : Cache) → IsCounted c → IsCounted (limit_sequences alive n c)
  unfolding limit_sequences
  limit_sequences-IsCounted zero c s = s
  limit_sequences-IsCounted (suc n) c s = elim (Bool-cases (ltb c.max_sequences c.live_sequences)) [
    | inl over ↦ rw over (limit_sequences-IsCounted n _ (evict_sequence-IsCounted c s))
    | inr fits ↦ rw fits s
  ]

  pub limit_size-IsCounted : (n : ℕ) (c : Cache) → IsCounted c → IsCounted (limit_size alive n c)
  unfolding limit_size
  limit_size-IsCounted zero c s = s
  limit_size-IsCounted (suc n) c s = elim (Bool-cases (ltb c.capacity c.size)) [
    | inl over ↦ rw over (limit_size-IsCounted n _ (evict_one-IsCounted c s))
    | inr fits ↦ rw fits s
  ]

  pub leaf_added-IsCounted :
      (d : Donation) (f : Forest) (splits : ℕ) (c : Cache)
      → IsKeyed f
      → total one f ≡ c.size + splits + 1
      → total live f ≡ c.live_sequences + live (new_leaf d [])
      → IsCounted (leaf_added alive d (grown alive d f splits c))
  leaf_added-IsCounted d f splits c key sizes lives = record {
    keyed = key;
    size_counts = omega arith;
    live_counts = ground arith;
  }

  settle-IsCounted :
      (d : Donation) (f : Forest) (splits : ℕ) (old : Option Node) (c : Cache)
      → IsKeyed f
      → total one f + weight_of one old ≡ c.size + splits + 1
      → total live f + weight_of live old ≡ c.live_sequences + live (new_leaf d [])
      → weight_of live old ≤ c.live_sequences
      → IsCounted (settle alive d f splits old c)
  unfolding settle add_leaf take_over
  settle-IsCounted d f splits none c key sizes lives had = limit_size-IsCounted _ _ (
      limit_sequences-IsCounted _ _
        (leaf_added-IsCounted d f splits c key (omega arith) (omega arith)))
  settle-IsCounted d f splits (some old) c key sizes lives had = record {
    keyed = key;
    size_counts = omega arith;
    live_counts = taken_over d.sequence old.sequence_id c.live_sequences (total live f) lives had;
  }

  pub insert-IsCounted :
      (tokens : List Token) (table : List ℤ) (sequence_id : ℤ) (backend : Option ℕ) (c : Cache)
      → IsCounted c
      → IsCounted (insert alive tokens table sequence_id backend c).0
  unfolding insert
  insert-IsCounted tokens table sequence_id backend c s =
      elim (Bool-cases (c.capacity == 0 || is_empty tokens || is_empty table)) [
        | inl refused ↦ rw refused s
        | inr goes_on ↦
            let d : Donation = record {
              table = table;
              sequence = sequence_id;
              owner = backend;
              stamp = c.clock + 1;
            } in
            let l = is_empty-length tokens (ground arith) in
            let r = insert_at (length tokens) d tokens c.root in
            let ins = insert_at-Inserts (length tokens) d tokens c.root l (omega arith) s.keyed in
            rw goes_on (
              settle-IsCounted d r.0 r.1.splits r.1.replaced c
                (Inserts-IsKeyed d tokens c.root r ins s.keyed)
                (omega (arith, Inserts-total one one-IsFlat d tokens c.root r ins, s.size_counts))
                (omega (arith, Inserts-total live live-IsFlat d tokens c.root r ins, s.live_counts))
                (omega
                  (arith, Inserts-replaced live live-IsFlat d tokens c.root r ins, s.live_counts)))
      ]

  pub lookup-IsCounted :
      (tokens : List Token) (backend : Option ℕ) (c : Cache)
      → IsCounted c
      → IsCounted (lookup alive tokens backend c).0
  unfolding lookup
  lookup-IsCounted tokens backend c s = elim (Bool-cases (c.capacity == 0 || is_empty tokens)) [
    | inl refused ↦ rw refused s
    | inr goes_on ↦ rw goes_on (record {
      keyed = touch-IsKeyed alive backend tokens c.clock c.root s.keyed;
      size_counts =
          s.size_counts ∙ sym (touch-total one one-IsFlat alive backend tokens c.clock c.root);
      live_counts =
          s.live_counts ∙ sym (touch-total live live-IsFlat alive backend tokens c.clock c.root);
    })
  ]
