-- ===== src/Radix/Eviction.antt =====
-- Which node an eviction takes, and what it does to the tree, as a relation.
use inferflux.Prelude.{
  ℕ, zero, suc, ◌+◌, ◌-◌, ◌==◌, ◌≤◌, ◌<◌, ◌≡◌, refl, sym, ap, subst, ◌∙◌, Bool, true, false, ◌&&◌,
  Option, none, some, List, [], ◌∷◌, ◌++◌, ltb, if◌then◌else◌, length, arith, Bool-cases, inl, inr,
  get_elem?,
}
use inferflux.Prelude.Scan.{From, From-cons, From-get_elem?}
use inferflux.Radix.Defs.{
  Token, Node, Forest, leaf, tree, is_leaf, Visited, collect, oldest_loop, oldest, cleared,
  evict_at,
}

-- The eviction of a node that meets the criteria: a childless one is erased, another is cleared.
pub data Evicts (criteria : Visited → Bool) : Forest → Visited → Forest → Type 0 where
  childless :
      (k : Token) (i : Node) (sib : Forest)
      → criteria (i, true) ≡ true
      → Evicts criteria (tree k i leaf sib) (i, true) sib
  inner :
      (k : Token) (i : Node) (ch sib : Forest)
      → criteria (i, false) ≡ true
      → is_leaf ch ≡ false
      → Evicts criteria (tree k i ch sib) (i, false) (tree k (cleared i) ch sib)
  below :
      (k : Token) (i : Node) (ch ch' sib : Forest) (v : Visited)
      → Evicts criteria ch v ch'
      → Evicts criteria (tree k i ch sib) v (tree k i ch' sib)
  beside :
      (k : Token) (i : Node) (ch sib sib' : Forest) (v : Visited)
      → Evicts criteria sib v sib'
      → Evicts criteria (tree k i ch sib) v (tree k i ch sib')

get_elem?-append_left {ℓ} :
    {A : Type ℓ} (xs ys : List A) (n : ℕ) → n < length xs → get_elem? (xs ++ ys) n ≡ get_elem? xs n
get_elem?-append_left [] ys n h = absurd (omega arith)
get_elem?-append_left (x ∷ xs) ys zero h = refl
get_elem?-append_left (x ∷ xs) ys (suc n) h = get_elem?-append_left xs ys n (omega arith)

get_elem?-append_right {ℓ} :
    {A : Type ℓ} (xs ys : List A) (n : ℕ)
    → length xs ≤ n
    → get_elem? (xs ++ ys) n ≡ get_elem? ys (n - length xs)
get_elem?-append_right [] ys n h = ap (get_elem? ys) (omega arith)
get_elem?-append_right (x ∷ xs) ys zero h = absurd (omega arith)
get_elem?-append_right (x ∷ xs) ys (suc n) h =
    get_elem?-append_right xs ys n (omega arith) ∙ ap (get_elem? ys) (omega arith)

module _ (criteria : Visited → Bool) where
  evict_further :
      (m n : ℕ) (k : Token) (i : Node) (ch sib : Forest) (v : Visited)
      → (criteria (i, is_leaf ch) && n == 0) ≡ false
      → (if criteria (i, is_leaf ch) then n - 1 else n) ≡ m
      → get_elem? (collect criteria ch ++ collect criteria sib) m ≡ some v
      → ((n' : ℕ)
          → get_elem? (collect criteria ch) n' ≡ some v
          → Evicts criteria ch v (evict_at criteria n' ch))
      → ((n' : ℕ)
          → get_elem? (collect criteria sib) n' ≡ some v
          → Evicts criteria sib v (evict_at criteria n' sib))
      → Evicts criteria (tree k i ch sib) v (evict_at criteria n (tree k i ch sib))
  unfolding evict_at
  evict_further m n k i ch sib v other e g inside outside =
      elim (Bool-cases (ltb m (length (collect criteria ch)))) [
        | inl t ↦ rw other (
            rw e (
              rw t (
                below k i ch _ sib v (
                  inside m (
                    sym (
                      get_elem?-append_left (collect criteria ch) (collect criteria sib) m
                        (ground arith))
                    ∙ g)))))
        | inr f ↦ rw other (
            rw e (
              rw f (
                beside k i ch sib _ v (
                  outside (m - length (collect criteria ch)) (
                    sym (
                      get_elem?-append_right (collect criteria ch) (collect criteria sib) m
                        (ground arith))
                    ∙ g)))))
      ]

  evict_here :
      (k : Token) (i : Node) (ch sib : Forest)
      → criteria (i, is_leaf ch) ≡ true
      → Evicts criteria (tree k i ch sib) (i, is_leaf ch) (evict_at criteria 0 (tree k i ch sib))
  unfolding evict_at
  evict_here k i leaf sib h = rw h (childless k i sib h)
  evict_here k i (tree k' i' ch sib') sib h = rw h (inner k i (tree k' i' ch sib') sib h refl)

  collect-cons :
      (k : Token) (i : Node) (ch sib : Forest)
      → collect criteria (tree k i ch sib)
        ≡ (if criteria (i, is_leaf ch) then (i, is_leaf ch) ∷ [] else [])
          ++ collect criteria ch
          ++ collect criteria sib
  unfolding collect
  collect-cons k i ch sib = refl

  at_or_after :
      (k : Token) (i : Node) (ch sib : Forest) (v : Visited)
      → criteria (i, is_leaf ch) ≡ true
      → ((n' : ℕ)
          → get_elem? (collect criteria ch) n' ≡ some v
          → Evicts criteria ch v (evict_at criteria n' ch))
      → ((n' : ℕ)
          → get_elem? (collect criteria sib) n' ≡ some v
          → Evicts criteria sib v (evict_at criteria n' sib))
      → (n : ℕ)
      → get_elem? ((i, is_leaf ch) ∷ (collect criteria ch ++ collect criteria sib)) n ≡ some v
      → Evicts criteria (tree k i ch sib) v (evict_at criteria n (tree k i ch sib))
  at_or_after k i ch sib v here inside outside zero g =
      let e : (i, is_leaf ch) ≡ v = ground arith in
      subst (λ w. Evicts criteria (tree k i ch sib) w (evict_at criteria 0 (tree k i ch sib))) e
        (evict_here k i ch sib here)
  at_or_after k i ch sib v here inside outside (suc m) g =
      evict_further m (suc m) k i ch sib v (rw here (ground arith)) (rw here (omega arith)) g inside
        outside

  none_collected : (n : ℕ) (v : Visited) → get_elem? (collect criteria leaf) n ≡ some v → ⊥
  unfolding collect
  none_collected n v g = absurd (ground arith)

  pub evict_at-Evicts :
      (n : ℕ) (f : Forest) (v : Visited)
      → get_elem? (collect criteria f) n ≡ some v
      → Evicts criteria f v (evict_at criteria n f)
  evict_at-Evicts n leaf v g = absurd (none_collected n v g)
  evict_at-Evicts n (tree k i ch sib) v g =
      let g' : get_elem?
            ((if criteria (i, is_leaf ch) then (i, is_leaf ch) ∷ [] else [])
              ++ collect criteria ch
              ++ collect criteria sib)
            n
          ≡ some v =
        ap (λ l. get_elem? l n) (sym (collect-cons k i ch sib)) ∙ g in
      elim (Bool-cases (criteria (i, is_leaf ch))) [
        | inl here ↦
            at_or_after k i ch sib v here (λ m. evict_at-Evicts m ch v)
              (λ m. evict_at-Evicts m sib v) n (rw here at g')
        | inr other ↦
            evict_further n n k i ch sib v (rw other refl) (rw other refl) (rw other at g')
              (λ m. evict_at-Evicts m ch v) (λ m. evict_at-Evicts m sib v)
      ]

-- The victim is a node that was collected, and there is one unless none was.
oldest_loop-From :
    (vs : List Visited) (j : ℕ) (best : Visited) (i : ℕ)
    → From vs j best i (oldest_loop j best i vs)
unfolding oldest_loop
oldest_loop-From [] j best i = inl refl
oldest_loop-From (v ∷ vs) j best i = From-cons vs j best i v _ _ (oldest_loop-From vs _ _ (i + 1))

pub data Victim (vs : List Visited) : Option (ℕ × Visited) → Type 0 where
  nobody : vs ≡ [] → Victim vs none
  victim : (n : ℕ) (v : Visited) → get_elem? vs n ≡ some v → Victim vs (some (n, v))

pub oldest-Victim : (vs : List Visited) → Victim vs (oldest vs)
unfolding oldest
oldest-Victim [] = nobody refl
oldest-Victim (v ∷ vs) =
    let r = oldest_loop 0 v 1 vs in
    victim r.0 r.1 (From-get_elem? v vs r (oldest_loop-From vs 0 v 1))

pub Evicts-criteria :
    (criteria : Visited → Bool) (f g : Forest) (v : Visited)
    → Evicts criteria f v g
    → criteria v ≡ true
Evicts-criteria criteria _ _ _ (childless k i sib h) = h
Evicts-criteria criteria _ _ _ (inner k i ch sib h l) = h
Evicts-criteria criteria _ _ _ (below k i ch ch' sib v e) = Evicts-criteria criteria ch ch' v e
Evicts-criteria criteria _ _ _ (beside k i ch sib sib' v e) = Evicts-criteria criteria sib sib' v e
