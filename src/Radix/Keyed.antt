-- ===== src/Radix/Keyed.antt =====
-- The edges begin with their keys after every walk.
use inferflux.Prelude.{
  ℕ, ◌+◌, ◌==◌, ◌<◌, ◌≡◌, Bool, true, Option, List, [], ◌∷◌, ◌++◌, length, drop, arith, Bool-cases,
  inl, inr,
}
use inferflux.Radix.Defs.{
  Token, Forest, leaf, tree, first_token, Donation, Placement, Visited, touch, admits,
  common_prefix,
}
use inferflux.Radix.Insertion.{Inserts, adds, passes, ends, descends, ends_within, parts_within}
use inferflux.Radix.Prefixes.{IsKeyed, begins}
use inferflux.Radix.Eviction.{Evicts, childless, inner, below, beside}

begins_self : (ts : List Token) → 0 < length ts → begins (first_token ts) ts ≡ true
begins_self [] h = absurd (omega arith)
begins_self (t ∷ ts) h = ground arith

begins-append_left :
    (k : Token) (p q : List Token) → 0 < length p → begins k (p ++ q) ≡ true → begins k p ≡ true
begins-append_left k [] q l b = absurd (omega arith)
begins-append_left k (x ∷ p) q l b = b

pub Inserts-IsKeyed :
    (d : Donation) (ts : List Token) (f : Forest) (r : Forest × Placement)
    → Inserts d ts f r
    → IsKeyed f
    → IsKeyed r.0
Inserts-IsKeyed d _ _ _ (adds ts l) s = (begins_self ts l, tt, tt)
Inserts-IsKeyed d _ _ _ (passes ts k i ch sib r o ins) (b, sc, ss) =
    (b, sc, Inserts-IsKeyed d ts sib r ins ss)
Inserts-IsKeyed d _ _ _ (ends ts k i ch sib h e) s = s
Inserts-IsKeyed d _ _ _ (descends ts rest k i ch sib r h e l ins) (b, sc, ss) =
    (b, Inserts-IsKeyed d rest ch r ins sc, ss)
Inserts-IsKeyed d _ _ _ (ends_within ts p q k i ch sib h e e' lp lq) (b, sc, ss) =
    (begins-append_left k p q lp (rw e at b), (begins_self q lq, sc, tt), ss)
Inserts-IsKeyed d _ _ _ (parts_within ts p q rest k i ch sib h e e' lp lq lr o) (b, sc, ss) = (
  begins-append_left k p q lp (rw e at b),
  (begins_self q lq, sc, (begins_self rest lr, tt, tt)),
  ss,
)

pub Evicts-IsKeyed :
    (criteria : Visited → Bool) (f g : Forest) (v : Visited)
    → Evicts criteria f v g
    → IsKeyed f
    → IsKeyed g
Evicts-IsKeyed criteria _ _ _ (childless k i sib h) (b, sc, ss) = ss
Evicts-IsKeyed criteria _ _ _ (inner k i ch sib h l) s = s
Evicts-IsKeyed criteria _ _ _ (below k i ch ch' sib v e) (b, sc, ss) =
    (b, Evicts-IsKeyed criteria ch ch' v e sc, ss)
Evicts-IsKeyed criteria _ _ _ (beside k i ch sib sib' v e) (b, sc, ss) =
    (b, sc, Evicts-IsKeyed criteria sib sib' v e ss)

pub touch-IsKeyed :
    (alive : ℕ → Bool) (backend : Option ℕ) (ts : List Token) (clock : ℕ) (f : Forest)
    → IsKeyed f
    → IsKeyed (touch alive backend ts clock f).0
unfolding touch
touch-IsKeyed alive backend [] clock f s = s
touch-IsKeyed alive backend (t ∷ ts) clock leaf s = s
touch-IsKeyed alive backend (t ∷ ts) clock (tree k i ch sib) (b, sc, ss) =
    let common = common_prefix i.edge (t ∷ ts) in
    elim (Bool-cases (k == t)) [
      | inr other ↦ rw other (b, sc, touch-IsKeyed alive backend (t ∷ ts) clock sib ss)
      | inl here ↦ elim (Bool-cases (admits alive backend i common)) [
        | inl through ↦ rw here (
            rw through
              (b, touch-IsKeyed alive backend (drop common (t ∷ ts)) (clock + 1) ch sc, ss))
        | inr stop ↦ rw here (rw stop (b, sc, ss))
      ]
    ]
