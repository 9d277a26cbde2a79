-- ===== src/Session/Leases.antt =====
-- The leases of the sessions, and how many sessions there are.
use inferflux.Prelude.{
  ℕ, zero, suc, ◌+◌, ◌≤◌, ◌≡◌, refl, subst, true, false, Option, none, some, List, [], ◌∷◌, arith,
  get_elem?, Bool-cases, inl, inr, ◌⊎◌,
}
use inferflux.Prelude.Text.{Text}
use inferflux.Session.Defs.{Entry, better, candidate_loop, eviction_candidate}

abbrev AtMost : Option (ℕ × Entry) → ℕ → Type 0
AtMost none n = ⊥
AtMost (some (i, e)) n = e.last_access ≤ n

better-AtMost :
    (i : ℕ) (e : Entry) (best : Option (ℕ × Entry)) (n : ℕ)
    → AtMost best n ⊎ ((e.in_use ≡ false) × (e.last_access ≤ n))
    → AtMost (better i e best) n
unfolding better
better-AtMost i e none n (inl h) = absurd h
better-AtMost i e none n (inr h) = ground (arith, h)
better-AtMost i e (some (j, b)) n (inl h) = ground (arith, h)
better-AtMost i e (some (j, b)) n (inr h) = ground (arith, h)

candidate_loop-AtMost :
    (es : List (Text × Entry)) (start : ℕ) (best : Option (ℕ × Entry)) (n : ℕ)
    → AtMost best n
    → AtMost (candidate_loop start best es) n
unfolding candidate_loop
candidate_loop-AtMost [] start best n h = h
candidate_loop-AtMost ((k, e) ∷ es) start best n h =
    candidate_loop-AtMost es (start + 1) (better start e best) n
      (better-AtMost start e best n (inl h))

candidate_loop-oldest :
    (es : List (Text × Entry)) (start : ℕ) (best : Option (ℕ × Entry)) (j : ℕ) (k : Text)
    (e' : Entry)
    → get_elem? es j ≡ some (k, e')
    → e'.in_use ≡ false
    → AtMost (candidate_loop start best es) e'.last_access
unfolding candidate_loop
candidate_loop-oldest [] start best j k e' g idle = cc
candidate_loop-oldest ((k', e) ∷ es) start best zero k e' g idle =
    candidate_loop-AtMost es (start + 1) (better start e best) e'.last_access
      (better-AtMost start e best e'.last_access (inr (ground arith)))
candidate_loop-oldest ((k', e) ∷ es) start best (suc j) k e' g idle =
    candidate_loop-oldest es (start + 1) (better start e best) j k e' g idle

-- Where the candidate stands.
abbrev Found : ℕ → List (Text × Entry) → ℕ → Entry → Type 0
Found start es i e =
    (n : ℕ) × (k : Text) × (i ≡ start + n) × (get_elem? es n ≡ some (k, e)) × (e.in_use ≡ false)

better-from :
    (i : ℕ) (e : Entry) (best : Option (ℕ × Entry)) (r : ℕ × Entry)
    → better i e best ≡ some r
    → (best ≡ some r) ⊎ ((r ≡ (i, e)) × (e.in_use ≡ false))
unfolding better
better-from i e none r h = ground arith
better-from i e (some (j, b)) r h = ground arith

candidate_loop-from :
    (es : List (Text × Entry)) (start : ℕ) (best : Option (ℕ × Entry)) (i : ℕ) (e : Entry)
    → candidate_loop start best es ≡ some (i, e)
    → (best ≡ some (i, e)) ⊎ Found start es i e
unfolding candidate_loop
candidate_loop-from [] start best i e h = inl h
candidate_loop-from ((k', x) ∷ es) start best i e h =
    elim (candidate_loop-from es (start + 1) (better start x best) i e h) [
      | inl b ↦ (elim (better-from start x best (i, e) b) [
        | inl b' ↦ inl b'
        | inr (q, idle) ↦ inr (0, k', ground arith, ground arith, ground arith)
      ])
      | inr (n, k, p, g, idle) ↦ inr (suc n, k, omega arith, g, idle)
    ]

-- What the search for a session to evict may find: no idle session, or an idle one that was used last
-- no later than any other.
pub data Evicts (es : List (Text × Entry)) : Option (ℕ × Entry) → Type 0 where
  all_held :
      ((j : ℕ) (k : Text) (e : Entry) → get_elem? es j ≡ some (k, e) → e.in_use ≡ true)
      → Evicts es none
  oldest_idle :
      (i : ℕ) (k : Text) (e : Entry)
      → get_elem? es i ≡ some (k, e)
      → e.in_use ≡ false
      → ((j : ℕ) (k' : Text) (e' : Entry)
          → get_elem? es j ≡ some (k', e')
          → e'.in_use ≡ false
          → e.last_access ≤ e'.last_access)
      → Evicts es (some (i, e))

-- The least recently used session that no one holds is the one to evict; there is none to evict just
-- when every session is held.
pub eviction_candidate-Evicts : (es : List (Text × Entry)) → Evicts es (eviction_candidate es)
unfolding eviction_candidate
eviction_candidate-Evicts es = go (candidate_loop 0 none es) refl
  where
    go : (r : Option (ℕ × Entry)) → candidate_loop 0 none es ≡ r → Evicts es r
    go none h = all_held (λ j k e g. elim (Bool-cases e.in_use) [
      | inl t ↦ t
      | inr f ↦
          absurd (subst (λ r. AtMost r e.last_access) h (candidate_loop-oldest es 0 none j k e g f))
    ])
    go (some (i, e)) h = elim (candidate_loop-from es 0 none i e h) [
      | inl b ↦ cc
      | inr (n, k, p, g, idle) ↦ oldest_idle i k e (ground arith) idle (λ j k' e' g' f.
          subst (λ r. AtMost r e'.last_access) h (candidate_loop-oldest es 0 none j k' e' g' f))
    ]
