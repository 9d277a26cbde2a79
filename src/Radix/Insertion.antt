-- ===== src/Radix/Insertion.antt =====
-- What `Insert` does to the tree, as a relation.
use inferflux.Prelude.{
  ℕ, zero, suc, ◌+◌, ◌==◌, ◌≤◌, ◌<◌, ◌≡◌, refl, sym, ap, subst, ltb→lt, ◌∙◌, true, false, Option,
  none, some, List, [], ◌++◌, ltb, length, take, drop, take-append-drop, arith, Bool-cases, inl,
  inr, length-take, length-drop,
}
use inferflux.Prelude.Int.{negsuc}
use inferflux.Radix.Defs.{
  Token, Node, Forest, leaf, tree, common_prefix, is_empty, first_token, intermediate, shortened,
  split_children, Donation, donated, new_leaf, Placement, insert_at,
}
use inferflux.Radix.Prefixes.{
  begins, IsKeyed, common_prefix-le, common_prefix_pos, is_empty-length, is_empty-nil,
  common_prefix-maximal, ended, parted, whole_edge,
}

-- A node that a split puts in, given its edge.
abbrev pub husk : List Token → Node
husk p = record {
  edge = p;
  block_table = [];
  sequence_id = negsuc 0;
  backend = none;
  last_used = 0;
}

abbrev pub placed : ℕ → Option Node → Placement
placed n old = record { splits = n; replaced = old }

-- The insertion of a sequence of tokens: it adds a leaf where no child begins with its first token;
-- otherwise that child's edge is the whole sequence, or a part of it at its beginning, after which the
-- insertion goes on below; or the two part within the edge, which is split there.
pub data Inserts (d : Donation) : List Token → Forest → Forest × Placement → Type 0 where
  adds :
      (ts : List Token)
      → 0 < length ts
      → Inserts d ts leaf (tree (first_token ts) (new_leaf d ts) leaf leaf, placed 0 none)
  passes :
      (ts : List Token) (k : Token) (i : Node) (ch sib : Forest) (r : Forest × Placement)
      → (k == first_token ts) ≡ false
      → Inserts d ts sib r
      → Inserts d ts (tree k i ch sib) (tree k i ch r.0, r.1)
  ends :
      (ts : List Token) (k : Token) (i : Node) (ch sib : Forest)
      → (k == first_token ts) ≡ true
      → i.edge ≡ ts
      → Inserts d ts (tree k i ch sib) (tree k (donated d i) ch sib, placed 0 (some i))
  descends :
      (ts rest : List Token) (k : Token) (i : Node) (ch sib : Forest) (r : Forest × Placement)
      → (k == first_token ts) ≡ true
      → ts ≡ i.edge ++ rest
      → 0 < length rest
      → Inserts d rest ch r
      → Inserts d ts (tree k i ch sib) (tree k i r.0 sib, r.1)
  ends_within :
      (ts p q : List Token) (k : Token) (i : Node) (ch sib : Forest)
      → (k == first_token ts) ≡ true
      → i.edge ≡ p ++ q
      → ts ≡ p
      → 0 < length p
      → 0 < length q
      → Inserts d ts (tree k i ch sib) (
        tree k (donated d (husk p)) (tree (first_token q) (record i { edge = q }) ch leaf) sib,
        placed 1 (some (husk p)),
      )
  parts_within :
      (ts p q rest : List Token) (k : Token) (i : Node) (ch sib : Forest)
      → (k == first_token ts) ≡ true
      → i.edge ≡ p ++ q
      → ts ≡ p ++ rest
      → 0 < length p
      → 0 < length q
      → 0 < length rest
      → (first_token q == first_token rest) ≡ false
      → Inserts d ts (tree k i ch sib) (
        tree k
            (husk p)
            (tree
              (first_token q)
              (record i { edge = q })
              ch
              (tree (first_token rest) (new_leaf d rest) leaf leaf))
            sib,
        placed 1 none,
      )

add_beside :
    (rounds : ℕ) (d : Donation) (rest : List Token) (k : Token) (i : Node) (ch : Forest)
    → 0 < length rest
    → length rest ≤ rounds
    → (k == first_token rest) ≡ false
    → insert_at rounds d rest (tree k i ch leaf)
      ≡ (tree k i ch (tree (first_token rest) (new_leaf d rest) leaf leaf), placed 0 none)
unfolding insert_at
add_beside zero d rest k i ch l r h = absurd (omega arith)
add_beside (suc rounds) d rest k i ch l r h = rw h refl

insert_leaf :
    (rounds : ℕ) (d : Donation) (ts : List Token)
    → 0 < length ts
    → Inserts d ts leaf (insert_at (suc rounds) d ts leaf)
unfolding insert_at
insert_leaf rounds d ts l = adds ts l

round_passes :
    (rounds : ℕ) (d : Donation) (ts : List Token) (k : Token) (i : Node) (ch sib : Forest)
    → (k == first_token ts) ≡ false
    → let r = insert_at (suc rounds) d ts sib in
      insert_at (suc rounds) d ts (tree k i ch sib) ≡ (tree k i ch r.0, r.1)
unfolding insert_at
round_passes rounds d ts k i ch sib other = rw other refl

-- One round of the loop at the child that it takes, in its four cases.
module _ (rounds : ℕ) (d : Donation) (ts : List Token) (k : Token) (i : Node) (ch sib : Forest)
    (here : (k == first_token ts) ≡ true) where
  round_ends :
      ltb (common_prefix i.edge ts) (length i.edge) ≡ false
      → is_empty (drop (common_prefix i.edge ts) ts) ≡ true
      → insert_at (suc rounds) d ts (tree k i ch sib)
        ≡ (tree k (donated d i) ch sib, placed 0 (some i))
  unfolding insert_at
  round_ends whole done = rw here (rw done (rw whole refl))

  round_descends :
      ltb (common_prefix i.edge ts) (length i.edge) ≡ false
      → is_empty (drop (common_prefix i.edge ts) ts) ≡ false
      → let r = insert_at rounds d (drop (common_prefix i.edge ts) ts) ch in
        insert_at (suc rounds) d ts (tree k i ch sib)
        ≡ (tree k i r.0 sib, placed (0 + r.1.splits) r.1.replaced)
  unfolding insert_at
  round_descends whole more = rw here (rw more (rw whole refl))

  round_splits :
      ltb (common_prefix i.edge ts) (length i.edge) ≡ true
      → is_empty (drop (common_prefix i.edge ts) ts) ≡ true
      → let c = common_prefix i.edge ts in
        insert_at (suc rounds) d ts (tree k i ch sib) ≡ (
          tree k (donated d (intermediate c i)) (split_children c i ch) sib,
          placed 1 (some (intermediate c i)),
        )
  unfolding insert_at
  round_splits split done = rw here (rw done (rw split refl))

  round_parts :
      ltb (common_prefix i.edge ts) (length i.edge) ≡ true
      → is_empty (drop (common_prefix i.edge ts) ts) ≡ false
      → let c = common_prefix i.edge ts in
        let r = insert_at rounds d (drop c ts) (split_children c i ch) in
        insert_at (suc rounds) d ts (tree k i ch sib)
        ≡ (tree k (intermediate c i) r.0 sib, placed (1 + r.1.splits) r.1.replaced)
  unfolding insert_at
  round_parts split more = rw here (rw more (rw split refl))

insert_here :
    (rounds : ℕ) (d : Donation) (ts : List Token) (k : Token) (i : Node) (ch sib : Forest)
    → 0 < length ts
    → length ts ≤ suc rounds
    → begins k i.edge ≡ true
    → (k == first_token ts) ≡ true
    → (0 < length (drop (common_prefix i.edge ts) ts)
        → length (drop (common_prefix i.edge ts) ts) ≤ rounds
        → Inserts d
            (drop (common_prefix i.edge ts) ts)
            ch
            (insert_at rounds d (drop (common_prefix i.edge ts) ts) ch))
    → Inserts d ts (tree k i ch sib) (insert_at (suc rounds) d ts (tree k i ch sib))
insert_here rounds d ts k i ch sib l r b here below =
    let c = common_prefix i.edge ts in
    let pos = common_prefix_pos k i.edge ts b here l in
    let le = common_prefix-le i.edge ts in
    let taken = length-take c i.edge in
    let left = length-drop c i.edge in
    let fewer : length (drop c ts) ≤ rounds = omega (arith, length-drop c ts, pos, r) in
    elim (Bool-cases (ltb c (length i.edge))) [
      | inl split ↦
          let inside = ltb→lt c (length i.edge) split in
          (elim (Bool-cases (is_empty (drop c ts))) [
            | inl done ↦
                subst (Inserts d ts (tree k i ch sib))
                  (sym (round_splits rounds d ts k i ch sib here split done))
                  (ends_within ts (take c i.edge) (drop c i.edge) k i ch sib here
                    (sym (take-append-drop c i.edge)) (ended i.edge ts (is_empty-nil _ done))
                    (omega arith) (omega arith))
            | inr more ↦
                let rest_pos = is_empty-length (drop c ts) more in
                let differ =
                  common_prefix-maximal i.edge ts inside
                    (omega (arith, length-drop c ts, rest_pos)) in
                subst (Inserts d ts (tree k i ch sib))
                  (sym (
                    round_parts rounds d ts k i ch sib here split more
                    ∙ ap
                        (λ s.
                          (tree k (intermediate c i) s.0 sib, placed (1 + s.1.splits) s.1.replaced))
                        (add_beside rounds d (drop c ts) (first_token (drop c i.edge))
                          (shortened c i) ch rest_pos fewer differ)))
                  (parts_within ts (take c i.edge) (drop c i.edge) (drop c ts) k i ch sib here
                    (sym (take-append-drop c i.edge)) (parted i.edge ts) (omega arith) (omega arith)
                    rest_pos differ)
          ])
      | inr whole ↦ (elim (Bool-cases (is_empty (drop c ts))) [
        | inl done ↦
            subst (Inserts d ts (tree k i ch sib))
              (sym (round_ends rounds d ts k i ch sib here whole done))
              (ends ts k i ch sib here
                (sym (ended i.edge ts (is_empty-nil _ done) ∙ whole_edge c i.edge whole)))
        | inr more ↦
            let rest_pos = is_empty-length (drop c ts) more in
            subst (Inserts d ts (tree k i ch sib))
              (sym (
                round_descends rounds d ts k i ch sib here whole more
                ∙ ap
                    (λ n. (
                      tree k i (insert_at rounds d (drop c ts) ch).0 sib,
                      placed n (insert_at rounds d (drop c ts) ch).1.replaced,
                    ))
                    (omega arith)))
              (descends ts (drop c ts) k i ch sib _ here
                (parted i.edge ts ∙ ap (λ p. p ++ drop c ts) (whole_edge c i.edge whole)) rest_pos
                (below rest_pos fewer))
      ])
    ]

-- `Insert` does to the tree what the relation says, in as many rounds as there are tokens, where every
-- edge begins with the key that it stands under.
pub insert_at-Inserts :
    (rounds : ℕ) (d : Donation) (ts : List Token) (f : Forest)
    → 0 < length ts
    → length ts ≤ rounds
    → IsKeyed f
    → Inserts d ts f (insert_at rounds d ts f)
insert_at-Inserts zero d ts f l r s = absurd (omega arith)
insert_at-Inserts (suc rounds) d ts leaf l r s = insert_leaf rounds d ts l
insert_at-Inserts (suc rounds) d ts (tree k i ch sib) l r (b, sc, ss) =
    elim (Bool-cases (k == first_token ts)) [
      | inr other ↦
          subst (Inserts d ts (tree k i ch sib)) (sym (round_passes rounds d ts k i ch sib other))
            (passes ts k i ch sib _ other (insert_at-Inserts (suc rounds) d ts sib l r ss))
      | inl here ↦
          insert_here rounds d ts k i ch sib l r b here
            (λ l' r'. insert_at-Inserts rounds d (drop (common_prefix i.edge ts) ts) ch l' r' sc)
    ]
