-- ===== src/Radix/Total.antt =====
-- Sums over the nodes of a tree, and what the walks do to them.
use inferflux.Prelude.{
  ℕ, ◌+◌, ◌*◌, ◌≤◌, ◌≡◌, refl, Bool, Option, none, some, List, [], ◌∷◌, if◌then◌else◌, drop, arith,
}
use inferflux.Radix.Defs.{
  Token, Node, Forest, leaf, tree, Donation, new_leaf, Placement, Visited, cleared, touch,
  common_prefix,
}
use inferflux.Radix.Eviction.{Evicts, childless, inner, below, beside}
use inferflux.Radix.Insertion.{
  husk, Inserts, adds, passes, ends, descends, ends_within, parts_within,
}

unfoldable pub total : (Node → ℕ) → Forest → ℕ
total μ leaf = 0
total μ (tree k i ch sib) = μ i + total μ ch + total μ sib

-- A weight of nodes that does not depend on the edge, nor on the time of the last use.
pub record IsFlat (μ : Node → ℕ) : Type 0 where
  pub any_edge : (i : Node) (e : List Token) → μ (record i { edge = e }) ≡ μ i
  pub any_time : (i : Node) (t : ℕ) → μ (record i { last_used = t }) ≡ μ i

abbrev pub weight_of : (Node → ℕ) → Option Node → ℕ
weight_of μ none = 0
weight_of μ (some i) = μ i

module _ (μ : Node → ℕ) (flat : IsFlat μ) where
  pub Inserts-total :
      (d : Donation) (ts : List Token) (f : Forest) (r : Forest × Placement)
      → Inserts d ts f r
      → total μ r.0 + weight_of μ r.1.replaced
        ≡ total μ f + r.1.splits * μ (husk []) + μ (new_leaf d [])
  unfolding total
  Inserts-total d _ _ _ (adds ts l) = omega (arith, flat.any_edge (new_leaf d []) ts)
  Inserts-total d _ _ _ (passes ts k i ch sib r o ins) = omega (arith, Inserts-total d ts sib r ins)
  Inserts-total d _ _ _ (ends ts k i ch sib h e) =
      omega (arith, flat.any_edge (new_leaf d []) i.edge)
  Inserts-total d _ _ _ (descends ts rest k i ch sib r h e l ins) =
      omega (arith, Inserts-total d rest ch r ins)
  Inserts-total d _ _ _ (ends_within ts p q k i ch sib h e e' lp lq) =
      omega (arith, flat.any_edge (new_leaf d []) p, flat.any_edge i q, flat.any_edge (husk []) p)
  Inserts-total d _ _ _ (parts_within ts p q rest k i ch sib h e e' lp lq lr o) =
      omega
        (arith, flat.any_edge (new_leaf d []) rest, flat.any_edge i q, flat.any_edge (husk []) p)

  pub Inserts-replaced :
      (d : Donation) (ts : List Token) (f : Forest) (r : Forest × Placement)
      → Inserts d ts f r
      → weight_of μ r.1.replaced ≤ total μ f + r.1.splits * μ (husk [])
  unfolding total
  Inserts-replaced d _ _ _ (adds ts l) = omega arith
  Inserts-replaced d _ _ _ (passes ts k i ch sib r o ins) =
      omega (arith, Inserts-replaced d ts sib r ins)
  Inserts-replaced d _ _ _ (ends ts k i ch sib h e) = omega arith
  Inserts-replaced d _ _ _ (descends ts rest k i ch sib r h e l ins) =
      omega (arith, Inserts-replaced d rest ch r ins)
  Inserts-replaced d _ _ _ (ends_within ts p q k i ch sib h e e' lp lq) =
      omega (arith, flat.any_edge (husk []) p)
  Inserts-replaced d _ _ _ (parts_within ts p q rest k i ch sib h e e' lp lq lr o) = omega arith

  pub touch-total :
      (alive : ℕ → Bool) (backend : Option ℕ) (ts : List Token) (clock : ℕ) (f : Forest)
      → total μ (touch alive backend ts clock f).0 ≡ total μ f
  unfolding touch total
  touch-total alive backend [] clock f = refl
  touch-total alive backend (t ∷ ts) clock leaf = refl
  touch-total alive backend (t ∷ ts) clock (tree k i ch sib) = ground (
    arith,
    touch-total alive backend (drop (common_prefix i.edge (t ∷ ts)) (t ∷ ts)) (clock + 1) ch,
    touch-total alive backend (t ∷ ts) clock sib,
    flat.any_time i (clock + 1),
  )

-- What the eviction of a node leaves of its weight.
abbrev pub left_weight : (Node → ℕ) → Visited → ℕ
left_weight μ v = if v.1 then 0 else μ (cleared v.0)

pub Evicts-total :
    (μ : Node → ℕ) (criteria : Visited → Bool) (f g : Forest) (v : Visited)
    → Evicts criteria f v g
    → total μ g + μ v.0 ≡ total μ f + left_weight μ v
unfolding total
Evicts-total μ criteria _ _ _ (childless k i sib h) = omega arith
Evicts-total μ criteria _ _ _ (inner k i ch sib h l) = omega arith
Evicts-total μ criteria _ _ _ (below k i ch ch' sib v e) =
    omega (arith, Evicts-total μ criteria ch ch' v e)
Evicts-total μ criteria _ _ _ (beside k i ch sib sib' v e) =
    omega (arith, Evicts-total μ criteria sib sib' v e)
