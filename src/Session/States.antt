-- ===== src/Session/States.antt =====
-- What becomes of the states that sessions store, and how many sessions there are.
use inferflux.Prelude.{
  ℕ, zero, suc, ◌+◌, ◌≡◌, refl, Bool, true, false, Option, some, List, [], ◌∷◌, ◌++◌, arith,
  if◌then◌else◌, get_elem?, Option-cases, inl, inr,
}
use inferflux.Prelude.Text.{Text}
use inferflux.Session.Defs.{
  HandleState, Entry, Manager, no_state, find, update, assign, erase, erase_at, eviction_candidate,
  stored, acquire_new, expire, states, acquire_idle, acquire_lease, commit_lease, release_lease,
  discard_leased_state, collect_loop, collect_expired, drain_all, committed, touch,
}
use inferflux.Session.Run.{
  Call, acquires, commits, releases, discards, collects, drains, step, run, stored_at, cleaned,
  dropped, brought, all_cleaned, all_dropped, all_brought,
}
use inferflux.Session.Leases.{Evicts, all_held, oldest_idle, eviction_candidate-Evicts}

-- How many states of a list pass a test.
unfoldable pub count : (HandleState → Bool) → List HandleState → ℕ
count p [] = 0
count p (s ∷ ss) = if p s then 1 + count p ss else count p ss

count-append :
    (p : HandleState → Bool) (xs ys : List HandleState)
    → count p (xs ++ ys) ≡ count p xs + count p ys
unfolding count
count-append p [] ys = omega arith
count-append p (x ∷ xs) ys = ground (arith, count-append p xs ys)

-- The states in the map after an update, and those that an entry gave up.
update-count :
    (p : HandleState → Bool) (id : Text) (x e : Entry) (es : List (Text × Entry))
    → find id es ≡ some e
    → count p (states (update id x es)) + count p (stored e)
      ≡ count p (states es) + count p (stored x)
unfolding find update states
update-count p id x e [] h = cc
update-count p id x e ((k, y) ∷ es) h = ground (
  arith,
  update-count p id x e es,
  count-append p (stored y) (states es),
  count-append p (stored x) (states es),
  count-append p (stored y) (states (update id x es)),
)

erase-count :
    (p : HandleState → Bool) (id : Text) (e : Entry) (es : List (Text × Entry))
    → find id es ≡ some e
    → count p (states (erase id es)) + count p (stored e) ≡ count p (states es)
unfolding find erase states
erase-count p id e [] h = cc
erase-count p id e ((k, y) ∷ es) h = ground (
  arith,
  erase-count p id e es,
  count-append p (stored y) (states es),
  count-append p (stored y) (states (erase id es)),
)

erase_at-count :
    (p : HandleState → Bool) (i : ℕ) (k : Text) (e : Entry) (es : List (Text × Entry))
    → get_elem? es i ≡ some (k, e)
    → count p (states (erase_at i es)) + count p (stored e) ≡ count p (states es)
unfolding erase_at states
erase_at-count p i k e [] h = cc
erase_at-count p zero k e ((k', y) ∷ es) h = ground (arith, count-append p (stored y) (states es))
erase_at-count p (suc i) k e ((k', y) ∷ es) h = ground (
  arith,
  erase_at-count p i k e es h,
  count-append p (stored y) (states es),
  count-append p (stored y) (states (erase_at i es)),
)

collect_loop-count :
    (p : HandleState → Bool) (now : ℕ) (es : List (Text × Entry))
    → count p (collect_loop now es).1 + count p (states (collect_loop now es).0)
      ≡ count p (states es)
unfolding collect_loop states count
collect_loop-count p now [] = omega arith
collect_loop-count p now ((k, y) ∷ es) = ground (
  arith,
  collect_loop-count p now es,
  count-append p (stored y) (states es),
  count-append p (stored y) (collect_loop now es).1,
  count-append p (stored y) (states (collect_loop now es).0),
)

-- Every state that was there or came in is in one place after the call.
record Conserves (p : HandleState → Bool) (c : Call) (m : Manager) : Type 0 where
  pub balance :
      count p (cleaned c m) + count p (dropped c m) + count p (states (step c m).entries)
      ≡ count p (states m.entries) + count p (brought c)

acquire_new-count :
    (p : HandleState → Bool) (now : ℕ) (id : Text) (m : Manager)
    → count p (acquire_new now id m).1.cleanup_states
        + count p (states (acquire_new now id m).0.entries)
      ≡ count p (states m.entries)
unfolding acquire_new states count
acquire_new-count p now id m =
    go (eviction_candidate m.entries) (eviction_candidate-Evicts m.entries) refl
  where
    go :
        (r : Option (ℕ × Entry))
        → Evicts m.entries r
        → eviction_candidate m.entries ≡ r
        → count p (acquire_new now id m).1.cleanup_states
            + count p (states (acquire_new now id m).0.entries)
          ≡ count p (states m.entries)
    go _ (all_held _) q = ground arith
    go _ (oldest_idle i k e g idle _) q = ground (arith, erase_at-count p i k e m.entries g)

acquire_idle-count :
    (p : HandleState → Bool) (now : ℕ) (id : Text) (e : Entry) (m : Manager)
    → find id m.entries ≡ some e
    → count p (acquire_idle now id e m).1.cleanup_states
        + count p (states (acquire_idle now id e m).0.entries)
      ≡ count p (states m.entries)
unfolding acquire_idle count
acquire_idle-count p now id e m f =
    ground (
      arith,
      update-count p id (touch now m (record (expire now e) { in_use = true })) e m.entries f,
    )

acquires-Conserves :
    (p : HandleState → Bool) (now : ℕ) (id : Text) (m : Manager) → Conserves p (acquires now id) m
unfolding cleaned dropped brought step acquire_lease count
acquires-Conserves p now id m = record {
  balance = elim (Option-cases (find id m.entries)) [
    | inl n ↦ ground (arith, acquire_new-count p now id m)
    | inr (e, f) ↦ ground (arith, acquire_idle-count p now id e m f)
  ];
}

commits-Conserves :
    (p : HandleState → Bool) (now : ℕ) (id : Text) (state : HandleState) (m : Manager)
    → Conserves p (commits now id state) m
unfolding cleaned dropped brought step commit_lease assign stored_at states count
commits-Conserves p now id state m = record {
  balance = elim (Option-cases (find id m.entries)) [
    | inl n ↦ ground (arith)
    | inr (e, f) ↦ ground (arith, update-count p id (committed now state m) e m.entries f)
  ];
}

releases-Conserves :
    (p : HandleState → Bool) (now : ℕ) (id : Text) (m : Manager) → Conserves p (releases now id) m
unfolding cleaned dropped brought step release_lease count
releases-Conserves p now id m = record {
  balance = elim (Option-cases (find id m.entries)) [
    | inl n ↦ ground arith
    | inr (e, f) ↦ ground (
      arith,
      update-count p id (touch now m (record e { in_use = false })) e m.entries f,
      erase-count p id e m.entries f,
    )
  ];
}

discards-Conserves :
    (p : HandleState → Bool) (id : Text) (m : Manager) → Conserves p (discards id) m
unfolding cleaned dropped brought step discard_leased_state stored_at count
discards-Conserves p id m = record {
  balance = elim (Option-cases (find id m.entries)) [
    | inl n ↦ ground arith
    | inr (e, f) ↦
        ground (
          arith,
          update-count p id (record e { state = no_state; has_state = false }) e m.entries f,
        )
  ];
}

step-Conserves : (p : HandleState → Bool) (c : Call) (m : Manager) → Conserves p c m
unfolding cleaned dropped brought step collect_expired drain_all states count
step-Conserves p (acquires now id) m = acquires-Conserves p now id m
step-Conserves p (commits now id state) m = commits-Conserves p now id state m
step-Conserves p (releases now id) m = releases-Conserves p now id m
step-Conserves p (discards id) m = discards-Conserves p id m
step-Conserves p (collects now) m = record {
  balance = ground (arith, collect_loop-count p now m.entries);
}
step-Conserves p drains m = record { balance = ground arith }

-- No state is lost and none is cleaned up twice: over any calls, whatever test a state may pass, as many
-- states pass it among those handed out for cleanup, those a commit replaced or a discard dropped and
-- those still stored as among those stored at first and those committed under a session name.
pub run-count :
    (p : HandleState → Bool) (cs : List Call) (m : Manager)
    → count p (all_cleaned cs m) + count p (all_dropped cs m) + count p (states (run cs m).entries)
      ≡ count p (states m.entries) + count p (all_brought cs)
unfolding run all_cleaned all_dropped all_brought count
run-count p [] m = omega arith
run-count p (c ∷ cs) m = omega (
  arith,
  run-count p cs (step c m),
  (step-Conserves p c m).balance,
  count-append p (cleaned c m) (all_cleaned cs (step c m)),
  count-append p (dropped c m) (all_dropped cs (step c m)),
  count-append p (brought c) (all_brought cs),
)
