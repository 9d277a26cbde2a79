-- ===== src/Radix/Reuse.antt =====
-- `Lookup` after `Insert`: the sequence that was donated is found again.
use mathlib.Core.List.{append-nil}
use inferflux.Prelude.{
  ℕ, zero, suc, ◌+◌, ◌==◌, ◌≤◌, ◌<◌, ◌≡◌, refl, sym, ap, ◌∙◌, Bool, true, false, not, ◌||◌, Option,
  none, some, List, [], ◌∷◌, ◌++◌, ltb, length, length-append, drop, arith,
}
use inferflux.Prelude.Int.{ℤ}
use inferflux.Radix.Defs.{
  Token, Node, Forest, leaf, tree, is_held, is_empty, first_token, common_prefix, lock, is_same,
  Walk, start, entered, admits, walk, Donation, donated, new_leaf, Placement, insert_at,
}
use inferflux.Radix.Ops.{
  Cache, conclude, lookup, insert, settle, add_leaf, take_over, grown, leaf_added, limit_sequences,
  limit_size,
}
use inferflux.Radix.Insertion.{
  husk, Inserts, adds, passes, ends, descends, ends_within, parts_within, insert_at-Inserts,
}
use inferflux.Radix.Prefixes.{is_empty-length}
use inferflux.Radix.Counts.{IsCounted}

common_prefix-append : (e ts : List Token) → common_prefix e (e ++ ts) ≡ length e
unfolding common_prefix
common_prefix-append [] ts = refl
common_prefix-append (x ∷ e) ts = ground (arith, common_prefix-append e ts)

drop-append : (e ts : List Token) → drop (length e) (e ++ ts) ≡ ts
drop-append [] ts = refl
drop-append (x ∷ e) ts = drop-append e ts

module _ (alive : ℕ → Bool) (backend : Option ℕ) where
  -- Whether a walk for the backend may go through a node whose edge it has seen whole.
  abbrev pub is_open : Node → Bool
  is_open i = not (is_held i.sequence_id) || is_same (lock alive i.backend) backend

  -- It may go through every node.
  abbrev pub IsOpen : Forest → Type 0
  IsOpen leaf = Unit {0}
  IsOpen (tree k i ch sib) = (is_open i ≡ true) × IsOpen ch × IsOpen sib

  walk_past :
      (ts : List Token) (w : Walk) (k : Token) (i : Node) (ch sib : Forest)
      → 0 < length ts
      → (k == first_token ts) ≡ false
      → walk alive backend ts w (tree k i ch sib) ≡ walk alive backend ts w sib
  unfolding walk
  walk_past [] w k i ch sib l h = absurd (omega arith)
  walk_past (t ∷ ts) w k i ch sib l h = rw h refl

  walk_through :
      (ts rest : List Token) (w : Walk) (k : Token) (i : Node) (ch sib : Forest)
      → 0 < length ts
      → (k == first_token ts) ≡ true
      → ts ≡ i.edge ++ rest
      → is_open i ≡ true
      → walk alive backend ts w (tree k i ch sib)
        ≡ walk alive backend rest (entered (length i.edge) i w) ch
  unfolding walk
  walk_through [] rest w k i ch sib l h e o = absurd (omega arith)
  walk_through (t ∷ ts) rest w k i ch sib l h e o =
      let c : common_prefix i.edge (t ∷ ts) ≡ length i.edge =
        ap (common_prefix i.edge) e ∙ common_prefix-append i.edge rest in
      let left : drop (length i.edge) (t ∷ ts) ≡ rest =
        ap (drop (length i.edge)) e ∙ drop-append i.edge rest in
      let goes_on : admits alive backend i (length i.edge) ≡ true = ground (arith, o) in
      simp (h, c, goes_on, left) refl

  -- The walk that has found a donation, after so many tokens and then some.
  abbrev found : Donation → ℕ → List Token → Walk
  found d n ts = record {
    offset = n + length ts;
    blocks = d.table;
    last_seq_id = d.sequence;
    last_seq_tokens = n + length ts;
    node_hit = true;
  }

  found_from :
      (d : Donation) (m n : ℕ) (xs ts : List Token)
      → m + length xs ≡ n + length ts
      → found d m xs ≡ found d n ts
  found_from d m n xs ts e =
      ap
        (λ (o : ℕ).
          let w : Walk = record {
            offset = o;
            blocks = d.table;
            last_seq_id = d.sequence;
            last_seq_tokens = o;
            node_hit = true;
          } in
          w)
        e

  entered-offset : (c : ℕ) (i : Node) (w : Walk) → (entered c i w).offset ≡ w.offset + c
  entered-offset c i w = ground arith

  walk_done : (w : Walk) (f : Forest) → walk alive backend [] w f ≡ w
  unfolding walk
  walk_done w f = refl

  -- The last node of the way holds the donation.
  walk_ends :
      (d : Donation) (ts : List Token) (w : Walk) (k : Token) (i : Node) (ch sib : Forest)
      → is_held d.sequence ≡ true
      → is_same (lock alive d.owner) backend ≡ true
      → 0 < length ts
      → (k == first_token ts) ≡ true
      → i.edge ≡ ts
      → walk alive backend ts w (tree k (donated d i) ch sib) ≡ found d w.offset ts
  walk_ends d ts w k i ch sib held same l h e =
      walk_through ts [] w k (donated d i) ch sib l h (sym e ∙ sym (append-nil i.edge))
        (ground arith)
      ∙ walk_done _ ch
      ∙ rw held (ap (found d w.offset) e)

  Inserts-walk :
      (d : Donation)
      → is_held d.sequence ≡ true
      → is_same (lock alive d.owner) backend ≡ true
      → (ts : List Token) (f : Forest) (r : Forest × Placement) (w : Walk) → 0 < length ts
      → Inserts d ts f r
      → IsOpen f
      → walk alive backend ts w r.0 ≡ found d w.offset ts
  Inserts-walk d held same _ _ _ w l (adds ts l') o =
      walk_ends d ts w (first_token ts) (new_leaf d ts) leaf leaf held same l (ground arith) refl
  Inserts-walk d held same _ _ _ w l (passes ts k i ch sib r h ins) (oi, oc, os) =
      walk_past ts w k i ch r.0 l h ∙ Inserts-walk d held same ts sib r w l ins os
  Inserts-walk d held same _ _ _ w l (ends ts k i ch sib h e) o =
      walk_ends d ts w k i ch sib held same l h e
  Inserts-walk d held same _ _ _ w l (descends ts rest k i ch sib r h e l' ins) (oi, oc, os) =
      walk_through ts rest w k i r.0 sib l h e oi
      ∙ Inserts-walk d held same rest ch r (entered (length i.edge) i w) l' ins oc
      ∙ found_from d (entered (length i.edge) i w).offset w.offset rest ts (
          omega (arith, entered-offset (length i.edge) i w, ap length e, length-append i.edge rest))
  Inserts-walk d held same _ _ _ w l (ends_within ts p q k i ch sib h e e' lp lq) o =
      walk_ends d ts w k (husk p) (tree (first_token q) (record i { edge = q }) ch leaf) sib held
        same l h (sym e')
  Inserts-walk d held same _ _ _ w l (parts_within ts p q rest k i ch sib h e e' lp lq lr x) o =
      walk_through ts rest w k (husk p) _ sib l h e' refl
      ∙ walk_past rest _ (first_token q) (record i { edge = q }) ch _ lr x
      ∙ walk_ends d rest _ (first_token rest) (new_leaf d rest) leaf leaf held same lr
          (ground arith) refl
      ∙ found_from d (w.offset + length p) w.offset rest ts
          (omega (arith, ap length e', length-append p rest))

  conclude-found :
      (d : Donation) (n : ℕ) (ts : List Token)
      → is_held d.sequence ≡ true
      → is_empty d.table ≡ false
      → conclude (found d n ts) ≡ (record {
        is_hit = true;
        block_table = d.table;
        sequence_id = d.sequence;
        matched_tokens = n + length ts;
      })
  unfolding conclude
  conclude-found d n ts held full = simp (held, full) refl

Inserts-splits :
    (d : Donation) (ts : List Token) (f : Forest) (r : Forest × Placement)
    → Inserts d ts f r
    → r.1.splits ≤ 1
Inserts-splits d _ _ _ (adds ts l) = omega arith
Inserts-splits d _ _ _ (passes ts k i ch sib r o ins) = Inserts-splits d ts sib r ins
Inserts-splits d _ _ _ (ends ts k i ch sib h e) = omega arith
Inserts-splits d _ _ _ (descends ts rest k i ch sib r h e l ins) = Inserts-splits d rest ch r ins
Inserts-splits d _ _ _ (ends_within ts p q k i ch sib h e e' lp lq) = omega arith
Inserts-splits d _ _ _ (parts_within ts p q rest k i ch sib h e e' lp lq lr x) = omega arith

module _ (alive : ℕ → Bool) where
  limit_sequences-idle :
      (n : ℕ) (c : Cache) → c.live_sequences ≤ c.max_sequences → limit_sequences alive n c ≡ c
  unfolding limit_sequences
  limit_sequences-idle zero c h = refl
  limit_sequences-idle (suc n) c h =
      let idle : ltb c.max_sequences c.live_sequences ≡ false = ground arith in simp idle refl

  limit_size-idle : (n : ℕ) (c : Cache) → c.size ≤ c.capacity → limit_size alive n c ≡ c
  unfolding limit_size
  limit_size-idle zero c h = refl
  limit_size-idle (suc n) c h =
      let idle : ltb c.capacity c.size ≡ false = ground arith in simp idle refl

  -- With room for one more sequence and two more nodes, the tree stays as the loop has left it.
  settle-root :
      (d : Donation) (f : Forest) (splits : ℕ) (o : Option Node) (c : Cache)
      → splits ≤ 1
      → c.live_sequences + 1 ≤ c.max_sequences
      → c.size + 2 ≤ c.capacity
      → ((settle alive d f splits o c).root ≡ f)
        × ((settle alive d f splits o c).capacity ≡ c.capacity)
  unfolding settle add_leaf take_over
  settle-root d f splits none c s l m =
      let c1 = leaf_added alive d (grown alive d f splits c) in
      let fits : c1.live_sequences ≤ c1.max_sequences = ground arith in
      let a = limit_sequences-idle c1.live_sequences c1 fits in
      let b = limit_size-idle c1.size c1 (omega arith) in
      (
        ap (λ e. (limit_size alive e.size e).root) a ∙ ap (λ e. e.root) b,
        ap (λ e. (limit_size alive e.size e).capacity) a ∙ ap (λ e. e.capacity) b,
      )
  settle-root d f splits (some old) c s l m = (refl, refl)

  -- A sequence that was inserted is found again, whole: with room for one more live sequence and two
  -- more nodes, the counts being those of the tree, Insert of some tokens and blocks by a held sequence
  -- whose backend is alive, followed by Lookup of the same tokens for that backend, is a hit with the
  -- inserted sequence, the inserted block table and all of the tokens matched; as long as the backend of
  -- every node that holds a sequence is that one.
  pub insert-lookup :
      (tokens : List Token) (table : List ℤ) (sequence_id : ℤ) (backend : Option ℕ) (c : Cache)
      → IsCounted c
      → IsOpen alive backend c.root
      → is_held sequence_id ≡ true
      → is_same (lock alive backend) backend ≡ true
      → is_empty tokens ≡ false
      → is_empty table ≡ false
      → c.live_sequences + 1 ≤ c.max_sequences
      → c.size + 2 ≤ c.capacity
      → (lookup alive tokens backend (insert alive tokens table sequence_id backend c).0).1
        ≡ (record {
          is_hit = true;
          block_table = table;
          sequence_id = sequence_id;
          matched_tokens = length tokens;
        })
  unfolding insert lookup
  insert-lookup tokens table sequence_id backend c s opens held same some_tokens full room room' =
      let d : Donation = record {
        table = table;
        sequence = sequence_id;
        owner = backend;
        stamp = c.clock + 1;
      } in
      let l = is_empty-length tokens some_tokens in
      let r = insert_at (length tokens) d tokens c.root in
      let ins = insert_at-Inserts (length tokens) d tokens c.root l (omega arith) s.keyed in
      let (root, capacity) =
        settle-root d r.0 r.1.splits r.1.replaced c (Inserts-splits d tokens c.root r ins) room
          room' in
      let goes_on : (c.capacity == 0 || is_empty tokens || is_empty table) ≡ false =
        simp (some_tokens, full) (ground arith) in
      let looks : ((settle alive d r.0 r.1.splits r.1.replaced c).capacity == 0 || is_empty tokens)
          ≡ false =
        simp (some_tokens, capacity) (ground arith) in
      simp
        (
          goes_on,
          looks,
          root,
          Inserts-walk alive backend d held same tokens c.root r start l ins opens,
          conclude-found alive backend d 0 tokens held full,
        )
        (ground arith)
