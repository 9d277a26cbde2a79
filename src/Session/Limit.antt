-- ===== src/Session/Limit.antt =====
-- The number of sessions, and the way of a state from a commit to the next lease.
use inferflux.Prelude.{
  ℕ, zero, suc, ◌+◌, ◌≤◌, ◌≡◌, refl, true, false, Option, some, List, [], ◌∷◌, arith, length,
  get_elem?, Option-cases, inl, inr,
}
use inferflux.Prelude.Text.{Text}
use inferflux.Session.Defs.{
  Entry, Manager, no_state, find, update, assign, erase, erase_at, eviction_candidate, acquire_new,
  expire, acquire_idle, acquire_lease, commit_lease, release_lease, discard_leased_state,
  collect_loop, collect_expired, drain_all, session_count, committed, touch,
}
use inferflux.Session.Run.{
  Call, acquires, commits, releases, discards, collects, drains, step, run, strays, stray,
}
use inferflux.Session.Leases.{Evicts, all_held, oldest_idle, eviction_candidate-Evicts}

length-update :
    (id : Text) (x : Entry) (es : List (Text × Entry)) → length (update id x es) ≡ length es
unfolding update
length-update id x [] = refl
length-update id x ((k, e) ∷ es) = ground (arith, length-update id x es)

length-erase : (id : Text) (es : List (Text × Entry)) → length (erase id es) ≤ length es
unfolding erase
length-erase id [] = omega arith
length-erase id ((k, e) ∷ es) = ground (arith, length-erase id es)

length-erase_at :
    (i : ℕ) (k : Text) (e : Entry) (es : List (Text × Entry))
    → get_elem? es i ≡ some (k, e)
    → length (erase_at i es) + 1 ≡ length es
unfolding erase_at
length-erase_at i k e [] h = cc
length-erase_at zero k e (x ∷ es) h = omega arith
length-erase_at (suc i) k e (x ∷ es) h = ground (arith, length-erase_at i k e es h)

length-collect_loop :
    (now : ℕ) (es : List (Text × Entry)) → length (collect_loop now es).0 ≤ length es
unfolding collect_loop
length-collect_loop now [] = omega arith
length-collect_loop now ((k, e) ∷ es) = ground (arith, length-collect_loop now es)

-- A number of sessions that a call may leave.
record IsWithin (n : ℕ) (limit : ℕ) (m : Manager) : Type 0 where
  pub limit_kept : m.max_sessions ≡ limit
  pub few : length m.entries ≤ limit + n

acquire_new-IsWithin :
    (n limit now : ℕ) (id : Text) (m : Manager)
    → IsWithin n limit m
    → IsWithin n limit (acquire_new now id m).0
unfolding acquire_new
acquire_new-IsWithin n limit now id m w =
    go (eviction_candidate m.entries) (eviction_candidate-Evicts m.entries) refl
  where
    go :
        (r : Option (ℕ × Entry))
        → Evicts m.entries r
        → eviction_candidate m.entries ≡ r
        → IsWithin n limit (acquire_new now id m).0
    go _ (all_held _) p = record { limit_kept = ground arith; few = ground arith }
    go _ (oldest_idle i k e g idle _) p = record {
      limit_kept = ground arith;
      few = ground (arith, length-erase_at i k e m.entries g);
    }

step-IsWithin :
    (c : Call) (n limit : ℕ) (m : Manager)
    → IsWithin n limit m
    → IsWithin (n + stray c m) limit (step c m)
unfolding step stray acquire_lease acquire_idle commit_lease release_lease discard_leased_state
    collect_expired drain_all assign
step-IsWithin (acquires now id) n limit m w = elim (Option-cases (find id m.entries)) [
  | inl e ↦ ground (arith, acquire_new-IsWithin n limit now id m w)
  | inr (x, f) ↦ record {
    limit_kept = ground arith;
    few =
        ground (
          arith,
          length-update id (touch now m (record (expire now x) { in_use = true })) m.entries,
        );
  }
]
step-IsWithin (commits now id state) n limit m w = record {
  limit_kept = ground arith;
  few = ground (arith, length-update id (committed now state m) m.entries);
}
step-IsWithin (releases now id) n limit m w = elim (Option-cases (find id m.entries)) [
  | inl e ↦ record { limit_kept = ground arith; few = ground arith }
  | inr (x, f) ↦ record {
    limit_kept = ground arith;
    few = ground (
      arith,
      length-update id (touch now m (record x { in_use = false })) m.entries,
      length-erase id m.entries,
    );
  }
]
step-IsWithin (discards id) n limit m w = elim (Option-cases (find id m.entries)) [
  | inl e ↦ record { limit_kept = ground arith; few = ground arith }
  | inr (x, f) ↦ record {
    limit_kept = ground arith;
    few =
        ground
          (arith, length-update id (record x { state = no_state; has_state = false }) m.entries);
  }
]
step-IsWithin (collects now) n limit m w = record {
  limit_kept = ground arith;
  few = ground (arith, length-collect_loop now m.entries);
}
step-IsWithin drains n limit m w = record { limit_kept = ground arith; few = ground arith }

run-IsWithin :
    (cs : List Call) (n limit : ℕ) (m : Manager)
    → IsWithin n limit m
    → IsWithin (n + strays cs m) limit (run cs m)
unfolding run strays
run-IsWithin [] n limit m w = record { limit_kept = ground arith; few = ground arith }
run-IsWithin (c ∷ cs) n limit m w =
    let rest = run-IsWithin cs (n + stray c m) limit (step c m) (step-IsWithin c n limit m w) in
    record { limit_kept = rest.limit_kept; few = omega (arith, rest.few) }

-- From a map that holds no more sessions than the limit, any calls leave at most the limit and one
-- more for each commit of a session that was not in the map; and they leave the limit.
pub run-session_count :
    (cs : List Call) (m : Manager)
    → session_count m ≤ m.max_sessions
    → ((run cs m).max_sessions ≡ m.max_sessions)
      × (session_count (run cs m) ≤ m.max_sessions + strays cs m)
unfolding session_count
run-session_count cs m h =
    let w = run-IsWithin cs 0 m.max_sessions m (record { limit_kept = refl; few = omega arith }) in
    (w.limit_kept, omega (arith, w.few))
