-- ===== src/Session/Hold.antt =====
-- How long a lease on a session lasts.
use inferflux.Prelude.{
  ℕ, zero, suc, ◌≡◌, refl, ◌∙◌, ap, Bool, true, false, Option, none, some, List, [], ◌∷◌, arith,
  get_elem?, Bool-cases, Option-cases, inl, inr,
}
use inferflux.Prelude.Text.{Text, same, same_sound}
use inferflux.Session.Defs.{
  Entry, Manager, refused, no_state, find, update, assign, erase, erase_at, eviction_candidate,
  acquire_new, expire, acquire_idle, acquire_lease, commit_lease, release_lease,
  discard_leased_state, collect_loop, collect_expired, committed, touch,
}
use inferflux.Session.Run.{Call, acquires, commits, releases, discards, collects, drains, step, run}
use inferflux.Session.Leases.{Evicts, all_held, oldest_idle, eviction_candidate-Evicts}

-- Whether a session is in the map and leased.
abbrev pub is_held : Text → List (Text × Entry) → Bool
is_held id es = elim (find id es) [ none ↦ false | some e ↦ e.in_use ]

pub same-transport : (x y z : Text) → same x y ≡ true → same x z ≡ same y z
same-transport x y z e = ap (λ t. same t z) (same_sound x y e)

update-is_held :
    (id : Text) (x : Entry) (es : List (Text × Entry)) (id' : Text)
    → same id id' ≡ false
    → is_held id' (update id x es) ≡ is_held id' es
unfolding find update
update-is_held id x [] id' h = refl
update-is_held id x ((k, e) ∷ es) id' h =
    ground (arith, update-is_held id x es id' h, same-transport k id id')

update-held_self :
    (id : Text) (x : Entry) (es : List (Text × Entry)) (e : Entry)
    → find id es ≡ some e
    → is_held id (update id x es) ≡ x.in_use
unfolding find update
update-held_self id x [] e h = cc
update-held_self id x ((k, y) ∷ es) e h = ground (arith, update-held_self id x es e)

erase-is_held :
    (id : Text) (es : List (Text × Entry)) (id' : Text)
    → same id id' ≡ false
    → is_held id' (erase id es) ≡ is_held id' es
unfolding find erase
erase-is_held id [] id' h = refl
erase-is_held id ((k, e) ∷ es) id' h =
    ground (arith, erase-is_held id es id' h, same-transport k id id')

erase_at-is_held :
    (es : List (Text × Entry)) (i : ℕ) (k : Text) (e : Entry) (id : Text)
    → get_elem? es i ≡ some (k, e)
    → e.in_use ≡ false
    → is_held id es ≡ true
    → is_held id (erase_at i es) ≡ true
unfolding find erase_at
erase_at-is_held [] i k e id g idle h = cc
erase_at-is_held ((k', x) ∷ es) zero k e id g idle h = ground arith
erase_at-is_held ((k', x) ∷ es) (suc i) k e id g idle h =
    ground (arith, erase_at-is_held es i k e id)

collect_loop-is_held :
    (now : ℕ) (es : List (Text × Entry)) (id : Text)
    → is_held id es ≡ true
    → is_held id (collect_loop now es).0 ≡ true
unfolding find collect_loop
collect_loop-is_held now [] id h = cc
collect_loop-is_held now ((k, e) ∷ es) id h = ground (arith, collect_loop-is_held now es id)

-- Calls that leave the lease of a session to its holder: all but its own commit and release, and the
-- drain.
abbrev pub Spares : Text → Call → Type 0
Spares id (acquires now id') = Unit {0}
Spares id (commits now id' state) = same id' id ≡ false
Spares id (releases now id') = same id' id ≡ false
Spares id (discards id') = Unit {0}
Spares id (collects now) = Unit {0}
Spares id drains = ⊥

abbrev pub AllSpare : Text → List Call → Type 0
AllSpare id [] = Unit {0}
AllSpare id (c ∷ cs) = Spares id c × AllSpare id cs

-- An update that keeps a lease where there is one.
update-keeps :
    (id : Text) (x e : Entry) (es : List (Text × Entry)) (id' : Text)
    → find id es ≡ some e
    → (e.in_use ≡ true → x.in_use ≡ true)
    → is_held id' es ≡ true
    → is_held id' (update id x es) ≡ true
update-keeps id x e es id' f keep h = elim (Bool-cases (same id id')) [
  | inl t ↦ ground (arith, update-held_self id x es e f, same_sound id id' t, keep)
  | inr o ↦ update-is_held id x es id' o ∙ h
]

assign-is_held :
    (id : Text) (x : Entry) (es : List (Text × Entry)) (id' : Text)
    → same id id' ≡ false
    → is_held id' (assign id x es) ≡ is_held id' es
unfolding assign find
assign-is_held id x es id' o = ground (arith, update-is_held id x es id' o)

acquire_new-is_held :
    (now : ℕ) (id : Text) (m : Manager) (id' : Text)
    → is_held id' m.entries ≡ true
    → is_held id' (acquire_new now id m).0.entries ≡ true
unfolding acquire_new find
acquire_new-is_held now id m id' h =
    go (eviction_candidate m.entries) (eviction_candidate-Evicts m.entries) refl
  where
    go :
        (r : Option (ℕ × Entry))
        → Evicts m.entries r
        → eviction_candidate m.entries ≡ r
        → is_held id' (acquire_new now id m).0.entries ≡ true
    go _ (all_held _) p = ground arith
    go _ (oldest_idle i k e g idle _) p =
        ground (arith, erase_at-is_held m.entries i k e id' g idle h)

step-is_held :
    (c : Call) (m : Manager) (id : Text)
    → Spares id c
    → is_held id m.entries ≡ true
    → is_held id (step c m).entries ≡ true
unfolding step acquire_lease commit_lease release_lease discard_leased_state collect_expired
    acquire_idle
step-is_held (acquires now id') m id s h = elim (Option-cases (find id' m.entries)) [
  | inl n ↦ ground (arith, acquire_new-is_held now id' m id h)
  | inr (e, f) ↦ ground (
    arith,
    update-keeps id' (touch now m (record (expire now e) { in_use = true })) e m.entries id f
        (λ _. refl) h,
  )
]
step-is_held (commits now id' state) m id s h =
    ground (arith, assign-is_held id' (committed now state m) m.entries id s)
step-is_held (releases now id') m id s h = elim (Option-cases (find id' m.entries)) [
  | inl n ↦ ground arith
  | inr (e, f) ↦ ground (
    arith,
    update-is_held id' (touch now m (record e { in_use = false })) m.entries id s,
    erase-is_held id' m.entries id s,
  )
]
step-is_held (discards id') m id s h = elim (Option-cases (find id' m.entries)) [
  | inl n ↦ ground arith
  | inr (e, f) ↦ ground (
    arith,
    update-keeps id' (record e { state = no_state; has_state = false }) e m.entries id f (λ u. u) h,
  )
]
step-is_held (collects now) m id s h = collect_loop-is_held now m.entries id h
step-is_held drains m id s h = absurd s

run-is_held :
    (cs : List Call) (m : Manager) (id : Text)
    → AllSpare id cs
    → is_held id m.entries ≡ true
    → is_held id (run cs m).entries ≡ true
unfolding run
run-is_held [] m id s h = h
run-is_held (c ∷ cs) m id s h = run-is_held cs (step c m) id s.1 (step-is_held c m id s.0 h)

-- While a session is leased, and until its holder commits or releases it or the manager is drained,
-- whatever the other clients call (acquisitions with their evictions, collections of expired sessions,
-- discards): `AcquireLease` of it answers busy, hands out no state, and changes nothing.
pub run-acquire_busy :
    (cs : List Call) (m : Manager) (id : Text) (now : ℕ)
    → AllSpare id cs
    → is_held id m.entries ≡ true
    → acquire_lease now id (run cs m) ≡ (run cs m, refused)
unfolding acquire_lease
run-acquire_busy cs m id now s h = ground (arith, run-is_held cs m id s h)
