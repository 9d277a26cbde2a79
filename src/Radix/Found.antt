-- ===== src/Radix/Found.antt =====
-- What `Lookup` finds, against the nodes of the tree.
use inferflux.Prelude.{
  ℕ, ◌+◌, ◌==◌, ◌≤◌, ◌≡◌, refl, sym, ap, ◌∙◌, Bool, true, false, not, ◌&&◌, ◌||◌, Option, List, [],
  ◌∷◌, ◌++◌, length, take, drop, take-take-drop, length-drop, arith, Bool-cases, inl, inr, subst,
}
use inferflux.Radix.Defs.{
  Token, Node, Forest, leaf, tree, is_held, is_empty, common_prefix, lock, is_same, Walk, start,
  entered, admits, walk,
}
use inferflux.Radix.Ops.{Cache, Result, conclude, lookup}
use inferflux.Radix.Prefixes.{common_prefix-le, common_prefix-take, whole_edge}

-- A node stands in a tree at the end of a sequence of tokens: those of the edges down to it.
pub data At : Forest → List Token → Node → Type 0 where
  here : (k : Token) (i : Node) (ch sib : Forest) → At (tree k i ch sib) i.edge i
  down :
      (k : Token) (i : Node) (ch sib : Forest) (ts : List Token) (j : Node)
      → At ch ts j
      → At (tree k i ch sib) (i.edge ++ ts) j
  aside :
      (k : Token) (i : Node) (ch sib : Forest) (ts : List Token) (j : Node)
      → At sib ts j
      → At (tree k i ch sib) ts j

-- Whether a node holds a sequence that a backend may go on with.
abbrev pub serves : (ℕ → Bool) → Option ℕ → Node → Bool
serves alive backend i = is_held i.sequence_id && is_same (lock alive i.backend) backend

module _ (alive : ℕ → Bool) (backend : Option ℕ) where
  -- Where the last sequence of a walk comes from: it is that of before, or of a node on the way.
  pub data From (f : Forest) (ts : List Token) (w w' : Walk) : Type 0 where
    kept :
        w'.last_seq_id ≡ w.last_seq_id
        → w'.last_seq_tokens ≡ w.last_seq_tokens
        → w'.blocks ≡ w.blocks
        → From f ts w w'
    taken :
        (n : ℕ) (i : Node)
        → At f (take n ts) i
        → n ≤ length ts
        → serves alive backend i ≡ true
        → w'.last_seq_id ≡ i.sequence_id
        → w'.last_seq_tokens ≡ w.offset + n
        → w'.blocks ≡ i.block_table
        → From f ts w w'

  From-aside :
      (k : Token) (i : Node) (ch sib : Forest) (ts : List Token) (w w' : Walk)
      → From sib ts w w'
      → From (tree k i ch sib) ts w w'
  From-aside k i ch sib ts w w' (kept a b c) = kept a b c
  From-aside k i ch sib ts w w' (taken n j at l s a b c) =
      taken n j (aside k i ch sib (take n ts) j at) l s a b c

  From-down :
      (k : Token) (i : Node) (ch sib : Forest) (ts : List Token) (w w' : Walk) (c : ℕ)
      → i.edge ≡ take c ts
      → c ≤ length ts
      → (not (is_held i.sequence_id) || is_same (lock alive i.backend) backend) ≡ true
      → From ch (drop c ts) (entered c i w) w'
      → From (tree k i ch sib) ts w w'
  From-down k i ch sib ts w w' c e l ok (kept a b bl) = elim (Bool-cases (is_held i.sequence_id)) [
    | inl held ↦
        taken c i (subst (λ p. At (tree k i ch sib) p i) e (here k i ch sib)) l (ground arith)
          (rw held at a) (rw held at b) (rw held at bl)
    | inr free ↦ kept (rw free at a) (rw free at b) (rw free at bl)
  ]
  From-down k i ch sib ts w w' c e l ok (taken n j at m s a b bl) =
      taken (c + n) j
        (subst (λ p. At (tree k i ch sib) p j)
          (ap (λ p. p ++ take n (drop c ts)) e ∙ take-take-drop c n ts)
          (down k i ch sib (take n (drop c ts)) j at))
        (omega (arith, length-drop c ts)) s a (ground arith) bl

  admits-edge :
      (i : Node) (ts : List Token)
      → admits alive backend i (common_prefix i.edge ts) ≡ true
      → i.edge ≡ take (common_prefix i.edge ts) ts
  admits-edge i ts ok =
      sym (whole_edge (common_prefix i.edge ts) i.edge (ground arith))
      ∙ common_prefix-take i.edge ts

  walk-From : (ts : List Token) (w : Walk) (f : Forest) → From f ts w (walk alive backend ts w f)
  unfolding walk
  walk-From [] w f = kept refl refl refl
  walk-From (t ∷ ts) w leaf = kept refl refl refl
  walk-From (t ∷ ts) w (tree k i ch sib) =
      let c = common_prefix i.edge (t ∷ ts) in
      let deeper = walk-From (drop c (t ∷ ts)) (entered c i w) ch in
      let beside = walk-From (t ∷ ts) w sib in
      elim (Bool-cases (k == t)) [
        | inr other ↦ rw other (From-aside k i ch sib (t ∷ ts) w _ beside)
        | inl same ↦ (elim (Bool-cases (admits alive backend i c)) [
          | inr stops ↦ rw (same, stops) (kept refl refl refl)
          | inl goes_on ↦
              rw (same, goes_on)
                (From-down k i ch sib (t ∷ ts) w _ c (admits-edge i (t ∷ ts) goes_on)
                  (common_prefix-le i.edge (t ∷ ts)).1 (ground arith) deeper)
        ])
      ]

  -- A result is what a node of the tree holds, at the end of the tokens that are said to match.
  pub record Donor (f : Forest) (tokens : List Token) (r : Result) : Type 0 where
    pub node : Node
    pub stands : At f (take r.matched_tokens tokens) node
    pub fits : r.matched_tokens ≤ length tokens
    pub usable : serves alive backend node ≡ true
    pub sequence : r.sequence_id ≡ node.sequence_id
    pub table : r.block_table ≡ node.block_table
    pub has_blocks : is_empty r.block_table ≡ false

  conclude-hit :
      (w : Walk)
      → (conclude w).is_hit ≡ true
      → (is_held w.last_seq_id ≡ true)
        × ((conclude w).sequence_id ≡ w.last_seq_id)
        × ((conclude w).matched_tokens ≡ w.last_seq_tokens)
        × ((conclude w).block_table ≡ w.blocks)
        × (is_empty w.blocks ≡ false)
  unfolding conclude
  conclude-hit w =
      elim (Bool-cases (w.node_hit && is_held w.last_seq_id && not (is_empty w.blocks))) [
        | inl ok ↦ rw ok (λ h. (ground (arith, ok), refl, refl, refl, ground (arith, ok)))
        | inr missed ↦ rw missed (λ h. cc)
      ]

  conclude-Donor :
      (f : Forest) (tokens : List Token) (w : Walk)
      → From f tokens start w
      → (conclude w).is_hit ≡ true
      → Donor f tokens (conclude w)
  conclude-Donor f tokens w (kept a b c) h = cc (a, (conclude-hit w h).0)
  conclude-Donor f tokens w (taken n i at l s a b c) h =
      let (held, e1, e2, e3, full) = conclude-hit w h in
      let en : (conclude w).matched_tokens ≡ n = e2 ∙ b ∙ omega arith in
      record {
        node = i;
        stands = subst (λ m. At f (take m tokens) i) (sym en) at;
        fits = omega (arith, en, l);
        usable = s;
        sequence = e1 ∙ a;
        table = e3 ∙ c;
        has_blocks = ap is_empty e3 ∙ full;
      }

-- When Lookup returns true, its result is a node of the tree: one that stands at the end of the first
-- matched_tokens of the tokens, and at most all of them are said to match; the sequence and the block
-- table are the node's, the sequence is held by the backend that was asked for, and the table is not
-- empty.
pub lookup-Donor :
    (alive : ℕ → Bool) (tokens : List Token) (backend : Option ℕ) (c : Cache)
    → (lookup alive tokens backend c).1.is_hit ≡ true
    → Donor alive backend c.root tokens (lookup alive tokens backend c).1
unfolding lookup
lookup-Donor alive tokens backend c = elim (Bool-cases (c.capacity == 0 || is_empty tokens)) [
  | inl refused ↦ rw refused (λ h. cc)
  | inr goes_on ↦ rw goes_on (
      conclude-Donor alive backend c.root tokens (walk alive backend tokens start c.root)
        (walk-From alive backend tokens start c.root))
]
