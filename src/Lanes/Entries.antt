-- ===== src/Lanes/Entries.antt =====
-- The map of the pending entries.
use inferflux.Prelude.{
  ℕ, ◌+◌, ◌==◌, ◌≤◌, ◌<◌, ◌≡◌, refl, ap, subst, Bool, false, not, Option, none, some, List, [], ◌∷◌,
  ltb, if◌then◌else◌, arith, Bool-cases, inl, inr,
}
use inferflux.Lanes.Defs.{Pending, find, erase, update}

-- How many entries are of a lane.
unfoldable pub lane_count : Bool → List (ℕ × Pending) → ℕ
lane_count b [] = 0
lane_count b (e ∷ es) =
    (if (if b then e.1.decode_lane else not e.1.decode_lane) then 1 else 0) + lane_count b es

abbrev pub weight : Bool → Pending → ℕ
weight b p = if (if b then p.decode_lane else not p.decode_lane) then 1 else 0

-- All handles of the entries have been given out, and each has one entry.
unfoldable pub IsBelow : ℕ → List (ℕ × Pending) → Type 0
IsBelow n [] = Unit {0}
IsBelow n (e ∷ es) = (0 < e.0) × (e.0 < n) × (find e.0 es ≡ none) × IsBelow n es

pub IsBelow-find-none : (n : ℕ) (es : List (ℕ × Pending)) → IsBelow n es → find n es ≡ none
unfolding IsBelow find
IsBelow-find-none n [] h = refl
IsBelow-find-none n (e ∷ es) (p, l, u, h) = ground (arith, IsBelow-find-none n es h)

pub IsBelow-weaken : (m n : ℕ) (es : List (ℕ × Pending)) → m ≤ n → IsBelow m es → IsBelow n es
unfolding IsBelow
IsBelow-weaken m n [] l h = h
IsBelow-weaken m n (e ∷ es) l (p, k, u, h) = (p, omega arith, u, IsBelow-weaken m n es l h)

pub find-erase-none :
    (k h : ℕ) (es : List (ℕ × Pending)) → find k es ≡ none → find k (erase h es) ≡ none
unfolding find erase
find-erase-none k h [] e = e
find-erase-none k h (x ∷ es) e = ground (arith, find-erase-none k h es)

pub erase-IsBelow : (n h : ℕ) (es : List (ℕ × Pending)) → IsBelow n es → IsBelow n (erase h es)
unfolding IsBelow erase
erase-IsBelow n h [] s = s
erase-IsBelow n h (e ∷ es) (p, l, u, s) = elim (Bool-cases (e.0 == h)) [
  | inl same ↦ rw same s
  | inr other ↦ rw other (p, l, find-erase-none e.0 h es u, erase-IsBelow n h es s)
]

pub find-update :
    (k h : ℕ) (p : Pending) (es : List (ℕ × Pending))
    → find k (update h p es)
      ≡ (if h == k then elim (find k es) [ none ↦ none | some q ↦ some p ] else find k es)
unfolding find update
find-update k h p [] = ground arith
find-update k h p (e ∷ es) = ground (arith, find-update k h p es)

pub update-IsBelow :
    (n h : ℕ) (p : Pending) (es : List (ℕ × Pending)) → IsBelow n es → IsBelow n (update h p es)
unfolding IsBelow update
update-IsBelow n h p [] s = s
update-IsBelow n h p (e ∷ es) (q, l, u, s) = elim (Bool-cases (e.0 == h)) [
  | inl same ↦
      rw same (ground (arith, same, q), ground (arith, same, l), ground (arith, same, u), s)
  | inr other ↦
      rw other (q, l, ground (arith, u, find-update e.0 h p es), update-IsBelow n h p es s)
]

abbrev found_weight : Bool → Option Pending → ℕ
found_weight b none = 0
found_weight b (some p) = weight b p

pub lane_count-erase :
    (b : Bool) (h : ℕ) (p : Pending) (es : List (ℕ × Pending))
    → find h es ≡ some p
    → lane_count b (erase h es) + weight b p ≡ lane_count b es
unfolding find erase lane_count
lane_count-erase b h p [] e = cc
lane_count-erase b h p (x ∷ es) e = elim (Bool-cases (x.0 == h)) [
  | inl same ↦
      rw same
        (let w : weight b x.1 ≡ weight b p = ap (found_weight b) (rw same at e) in omega (arith, w))
  | inr other ↦ rw other (omega (arith, lane_count-erase b h p es (rw other at e)))
]

pub lane_count-update :
    (b : Bool) (h : ℕ) (p q : Pending) (es : List (ℕ × Pending))
    → find h es ≡ some q
    → p.decode_lane ≡ q.decode_lane
    → lane_count b (update h p es) ≡ lane_count b es
unfolding find update lane_count
lane_count-update b h p q [] e s = refl
lane_count-update b h p q (x ∷ es) e s = elim (Bool-cases (x.0 == h)) [
  | inl same ↦ rw same (
      let w : weight b x.1 ≡ weight b q = ap (found_weight b) (rw same at e) in
      let v : weight b p ≡ weight b q = ap (λ c. if (if b then c else not c) then 1 else 0) s in
      omega (arith, w, v))
  | inr other ↦ rw other (omega (arith, lane_count-update b h p q es (rw other at e) s))
]

-- The entries that a sweep keeps.
unfoldable pub young : ℕ → List (ℕ × Pending) → List (ℕ × Pending)
young cutoff [] = []
young cutoff (e ∷ es) = if ltb e.1.enqueued_at cutoff then young cutoff es else e ∷ young cutoff es

find-young-none :
    (k cutoff : ℕ) (es : List (ℕ × Pending)) → find k es ≡ none → find k (young cutoff es) ≡ none
unfolding find young
find-young-none k cutoff [] e = e
find-young-none k cutoff (x ∷ es) e = ground (arith, find-young-none k cutoff es)

pub young-IsBelow :
    (n cutoff : ℕ) (es : List (ℕ × Pending)) → IsBelow n es → IsBelow n (young cutoff es)
unfolding IsBelow young
young-IsBelow n cutoff [] s = s
young-IsBelow n cutoff (e ∷ es) (p, l, u, s) = elim (Bool-cases (ltb e.1.enqueued_at cutoff)) [
  | inl old ↦ rw old (young-IsBelow n cutoff es s)
  | inr recent ↦ rw recent (p, l, find-young-none e.0 cutoff es u, young-IsBelow n cutoff es s)
]

pub find-erase_self :
    (n h : ℕ) (es : List (ℕ × Pending)) → IsBelow n es → find h (erase h es) ≡ none
unfolding IsBelow find erase
find-erase_self n h [] s = refl
find-erase_self n h (e ∷ es) (p, l, u, s) = elim (Bool-cases (e.0 == h)) [
  | inl same ↦ let k : e.0 ≡ h = ground (arith, same) in rw same (subst (λ j. find j es ≡ none) k u)
  | inr other ↦ rw other (rw other (find-erase_self n h es s))
]

-- What is found after an erasure or a sweep was there before.
pub find-erase-some :
    (n k h : ℕ) (p : Pending) (es : List (ℕ × Pending))
    → IsBelow n es
    → find k (erase h es) ≡ some p
    → find k es ≡ some p
unfolding IsBelow find erase
find-erase-some n k h p [] s = λ e. e
find-erase-some n k h p (x ∷ es) (q, l, u, s) = elim (Bool-cases (x.0 == h)) [
  | inr other ↦ rw other (elim (Bool-cases (x.0 == k)) [
    | inl here ↦ rw here (λ e. e)
    | inr later ↦ rw later (find-erase-some n k h p es s)
  ])
  | inl same ↦ rw same (elim (Bool-cases (x.0 == k)) [
    | inl here ↦ λ e.
        let j : x.0 ≡ k = ground (arith, here) in
        let absent : find k es ≡ none = subst (λ i. find i es ≡ none) j u in cc (e, absent)
    | inr later ↦ rw later (λ e. e)
  ])
]

pub find-young-some :
    (n k cutoff : ℕ) (p : Pending) (es : List (ℕ × Pending))
    → IsBelow n es
    → find k (young cutoff es) ≡ some p
    → find k es ≡ some p
unfolding IsBelow find young
find-young-some n k cutoff p [] s = λ e. e
find-young-some n k cutoff p (x ∷ es) (q, l, u, s) =
    elim (Bool-cases (ltb x.1.enqueued_at cutoff)) [
      | inr recent ↦ rw recent (elim (Bool-cases (x.0 == k)) [
        | inl here ↦ rw here (λ e. e)
        | inr later ↦ rw later (find-young-some n k cutoff p es s)
      ])
      | inl old ↦ rw old (elim (Bool-cases (x.0 == k)) [
        | inl here ↦ λ e.
            let j : x.0 ≡ k = ground (arith, here) in
            let absent : find k (young cutoff es) ≡ none =
              find-young-none k cutoff es (subst (λ i. find i es ≡ none) j u) in
            cc (e, absent)
        | inr later ↦ rw later (find-young-some n k cutoff p es s)
      ])
    ]

abbrev pub time_of : ℕ → Option Pending → ℕ
time_of t none = t
time_of t (some p) = p.enqueued_at

pub find-erase_other :
    (k h : ℕ) (es : List (ℕ × Pending)) → (h == k) ≡ false → find k (erase h es) ≡ find k es
unfolding find erase
find-erase_other k h [] other = refl
find-erase_other k h (x ∷ es) other = ground (arith, other, find-erase_other k h es other)

-- A sweep keeps an entry that is not older than its cutoff.
pub find-young :
    (h cutoff : ℕ) (p : Pending) (es : List (ℕ × Pending))
    → find h es ≡ some p
    → ltb p.enqueued_at cutoff ≡ false
    → find h (young cutoff es) ≡ some p
unfolding find young
find-young h cutoff p [] f y = f
find-young h cutoff p (x ∷ es) f y = elim (Bool-cases (x.0 == h)) [
  | inl same ↦
      let e : some x.1 ≡ some p = rw same at f in
      let old : ltb x.1.enqueued_at cutoff ≡ false = cc (ap (time_of 0) e, y) in rw old (rw same e)
  | inr other ↦ elim (Bool-cases (ltb x.1.enqueued_at cutoff)) [
    | inl old ↦ rw old (find-young h cutoff p es (rw other at f) y)
    | inr recent ↦ rw recent (rw other (find-young h cutoff p es (rw other at f) y))
  ]
]
