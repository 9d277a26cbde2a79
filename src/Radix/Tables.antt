-- ===== src/Radix/Tables.antt =====
-- The block tables that an operation of the prefix cache releases, and those that its nodes keep.
use inferflux.Prelude.{
  ℕ, zero, suc, ◌+◌, ◌==◌, ◌≡◌, refl, ◌∙◌, Bool, true, false, not, ◌&&◌, ◌||◌, Option, none, some,
  List, [], ◌∷◌, ◌++◌, ltb, if◌then◌else◌, length, arith, Bool-cases, inl, inr,
}
use inferflux.Prelude.Int.{ℤ}
use inferflux.Radix.Defs.{
  Token, Node, Forest, is_held, is_empty, Donation, insert_at, Visited, collect, oldest, evict_at,
  holds_sequence, is_childless,
}
use inferflux.Radix.Ops.{
  Effect, releases, frees, retires, Cache, lookup, evict_one, evict_sequence, retire, release,
  limit_sequences, limit_size, add_leaf, take_over, leaf_added, grown, settle, insert, is_equal,
}
use inferflux.Radix.Insertion.{insert_at-Inserts}
use inferflux.Radix.Prefixes.{is_empty-length}
use inferflux.Radix.Eviction.{evict_at-Evicts, Victim, nobody, victim, oldest-Victim}
use inferflux.Radix.Total.{
  total, IsFlat, weight_of, Inserts-total, touch-total, left_weight, Evicts-total,
}
use inferflux.Radix.Counts.{IsCounted}

-- How many of some tables pass a test.
unfoldable pub count : (List ℤ → Bool) → List (List ℤ) → ℕ
count p [] = 0
count p (t ∷ ts) = (if p t then 1 else 0) + count p ts

-- How many of the tables that were released pass it.
unfoldable pub released : (List ℤ → Bool) → List Effect → ℕ
released p [] = 0
released p (releases t ∷ es) = (if p t then 1 else 0) + released p es
released p (frees b s ∷ es) = released p es
released p (retires s b ∷ es) = released p es

-- How many of the tables that the nodes keep pass it.
abbrev pub table_weight : (List ℤ → Bool) → Node → ℕ
table_weight p i = if is_empty i.block_table then 0 else if p i.block_table then 1 else 0

table_weight-IsFlat : (p : List ℤ → Bool) → IsFlat (table_weight p)
table_weight-IsFlat p = record { any_edge = λ i e. refl; any_time = λ i t. refl }

released-append :
    (p : List ℤ → Bool) (es es' : List Effect)
    → released p (es ++ es') ≡ released p es + released p es'
unfolding released
released-append p [] es' = omega arith
released-append p (releases t ∷ es) es' = omega (arith, released-append p es es')
released-append p (frees b s ∷ es) es' = released-append p es es'
released-append p (retires s b ∷ es) es' = released-append p es es'

released-append_triple :
    (p : List ℤ → Bool) (xs ys zs : List Effect)
    → released p (xs ++ ys ++ zs) ≡ released p xs + released p ys + released p zs
released-append_triple p xs ys zs =
    omega (arith, released-append p (xs ++ ys) zs, released-append p xs ys)

released_unless :
    (p : List ℤ → Bool) (b : Bool) (es : List Effect)
    → released p es ≡ 0
    → released p (if b then es else []) ≡ 0
unfolding released
released_unless p true es e = e
released_unless p false es e = refl

-- An eviction leaves no table in its node.
left_weight-none : (p : List ℤ → Bool) (v : Visited) → left_weight (table_weight p) v ≡ 0
left_weight-none p v = ground arith

-- The tables of a cache: those it released and those its nodes keep.
abbrev pub accounted : (List ℤ → Bool) → Cache → ℕ
accounted p c = released p c.effects + total (table_weight p) c.root

module _ (alive : ℕ → Bool) (p : List ℤ → Bool) where
  retire-released : (c : Cache) (i : Node) → released p (retire alive c i) ≡ 0
  unfolding retire released
  retire-released c i = ground arith

  release-released :
      (c : Cache) (i : Node)
      → c.has_kv_cache ≡ true
      → released p (release alive c i) ≡ table_weight p i
  unfolding released
  release-released c i kv = ground arith

  -- A step that loses no table.
  abbrev pub Keeps : Cache → Cache → Type 0
  Keeps c c' = (accounted p c' ≡ accounted p c) × (c'.has_kv_cache ≡ true)

  evict_one-accounted : (c : Cache) → c.has_kv_cache ≡ true → Keeps c (evict_one alive c)
  unfolding evict_one
  evict_one-accounted c kv =
      go (oldest (collect is_childless c.root)) (oldest-Victim (collect is_childless c.root)) refl
    where
      go :
          (o : Option (ℕ × Visited))
          → Victim (collect is_childless c.root) o
          → oldest (collect is_childless c.root) ≡ o
          → Keeps c (evict_one alive c)
      go _ (nobody e) q = rw (q, evict_one) (refl, kv)
      go _ (victim n v g) q =
          let ev = evict_at-Evicts is_childless n c.root v g in
          let a =
            Evicts-total (table_weight p) is_childless c.root (evict_at is_childless n c.root) v
              ev in
          let retired = if is_held v.0.sequence_id then retire alive c v.0 else [] in
          rw (q, evict_one)
            (
              omega (
                arith,
                a,
                left_weight-none p v,
                released-append_triple p c.effects retired (release alive c v.0),
                released_unless p (is_held v.0.sequence_id) _ (retire-released c v.0),
                release-released c v.0 kv,
              ),
              kv,
            )

  pub evict_sequence-accounted :
      (c : Cache) → c.has_kv_cache ≡ true → Keeps c (evict_sequence alive c).0
  unfolding evict_sequence
  evict_sequence-accounted c kv =
      go (oldest (collect holds_sequence c.root)) (oldest-Victim (collect holds_sequence c.root))
        refl
    where
      go :
          (o : Option (ℕ × Visited))
          → Victim (collect holds_sequence c.root) o
          → oldest (collect holds_sequence c.root) ≡ o
          → Keeps c (evict_sequence alive c).0
      go _ (nobody e) q = rw (q, evict_sequence) (refl, kv)
      go _ (victim n v g) q =
          let ev = evict_at-Evicts holds_sequence n c.root v g in
          let a =
            Evicts-total (table_weight p) holds_sequence c.root (evict_at holds_sequence n c.root) v
              ev in
          rw (q, evict_sequence)
            (
              omega (
                arith,
                a,
                left_weight-none p v,
                released-append_triple p c.effects (retire alive c v.0) (release alive c v.0),
                retire-released c v.0,
                release-released c v.0 kv,
              ),
              kv,
            )

  limit_sequences-accounted :
      (n : ℕ) (c : Cache) → c.has_kv_cache ≡ true → Keeps c (limit_sequences alive n c)
  unfolding limit_sequences
  limit_sequences-accounted zero c kv = (refl, kv)
  limit_sequences-accounted (suc n) c kv =
      elim (Bool-cases (ltb c.max_sequences c.live_sequences)) [
        | inl over ↦
            let e = evict_sequence-accounted c kv in
            let r = limit_sequences-accounted n (evict_sequence alive c).0 e.1 in
            rw over (r.0 ∙ e.0, r.1)
        | inr fits ↦ rw fits (refl, kv)
      ]

  limit_size-accounted :
      (n : ℕ) (c : Cache) → c.has_kv_cache ≡ true → Keeps c (limit_size alive n c)
  unfolding limit_size
  limit_size-accounted zero c kv = (refl, kv)
  limit_size-accounted (suc n) c kv = elim (Bool-cases (ltb c.capacity c.size)) [
    | inl over ↦
        let e = evict_one-accounted c kv in
        let r = limit_size-accounted n (evict_one alive c) e.1 in rw over (r.0 ∙ e.0, r.1)
    | inr fits ↦ rw fits (refl, kv)
  ]

  -- What a donation has brought.
  abbrev pub Brings : ℕ → Cache → Cache → Type 0
  Brings n c c' = (accounted p c' ≡ accounted p c + n) × (c'.has_kv_cache ≡ true)

  settle-accounted :
      (d : Donation) (f : Forest) (splits : ℕ) (old : Option Node) (n : ℕ) (c : Cache)
      → c.has_kv_cache ≡ true
      → total (table_weight p) f + weight_of (table_weight p) old
        ≡ total (table_weight p) c.root + n
      → Brings n c (settle alive d f splits old c)
  unfolding settle add_leaf take_over
  settle-accounted d f splits none n c kv e =
      let c1 = leaf_added alive d (grown alive d f splits c) in
      let c2 = limit_sequences alive c1.live_sequences c1 in
      let a = limit_sequences-accounted c1.live_sequences c1 kv in
      let b = limit_size-accounted c2.size c2 a.1 in (b.0 ∙ a.0 ∙ omega arith, b.1)
  settle-accounted d f splits (some old) n c kv e =
      let g = grown alive d f splits c in
      let is_ousted = is_held old.sequence_id && not (is_equal old.sequence_id d.sequence) in
      let retired : List Effect = if is_ousted then retire alive g old else [] in
      (
        omega (
          arith,
          released-append_triple p c.effects (release alive g old) retired,
          released_unless p is_ousted _ (retire-released g old),
          release-released g old kv,
          e,
        ),
        kv,
      )

  pub insert-accounted :
      (tokens : List Token) (table : List ℤ) (sequence_id : ℤ) (backend : Option ℕ) (c : Cache)
      → IsCounted c
      → c.has_kv_cache ≡ true
      → let r = insert alive tokens table sequence_id backend c in
        Brings (count p (if r.1 then table ∷ [] else [])) c r.0
  unfolding insert count
  insert-accounted tokens table sequence_id backend c s kv =
      elim (Bool-cases (c.capacity == 0 || is_empty tokens || is_empty table)) [
        | inl refused ↦ rw refused (omega arith, kv)
        | inr goes_on ↦
            let d : Donation = record {
              table = table;
              sequence = sequence_id;
              owner = backend;
              stamp = c.clock + 1;
            } in
            let l = is_empty-length tokens (ground arith) in
            let r = insert_at (length tokens) d tokens c.root in
            let ins = insert_at-Inserts (length tokens) d tokens c.root l (omega arith) s.keyed in
            rw goes_on (
              settle-accounted d r.0 r.1.splits r.1.replaced (count p (table ∷ [])) c kv (
                ground (
                  arith,
                  Inserts-total (table_weight p) (table_weight-IsFlat p) d tokens c.root r ins,
                )))
      ]

  pub lookup-accounted :
      (tokens : List Token) (backend : Option ℕ) (c : Cache)
      → c.has_kv_cache ≡ true
      → Keeps c (lookup alive tokens backend c).0
  unfolding lookup
  lookup-accounted tokens backend c kv = elim (Bool-cases (c.capacity == 0 || is_empty tokens)) [
    | inl refused ↦ rw refused (refl, kv)
    | inr goes_on ↦ rw goes_on (
      omega (
        arith,
        touch-total (table_weight p) (table_weight-IsFlat p) alive backend tokens c.clock c.root,
      ),
      kv,
    )
  ]
