-- ===== src/Session/Tests.antt =====
-- Runs of the session manager on small inputs, and its theorems at such inputs.
use inferflux.Prelude.{ℕ, ◌+◌, ◌==◌, ◌≤◌, ◌≡◌, refl, Bool, true, false, List, [], ◌∷◌, arith}
use inferflux.Prelude.Int.{pos, negsuc}
use inferflux.Prelude.Text.{Text, same, is_empty}
use inferflux.Session.Defs.{
  HandleState, Manager, no_state, new_entry, refused, granted, find, states, eviction_candidate,
  candidate_loop, better, acquire_lease, acquire_new, session_count,
}
use inferflux.Session.Run.{
  Call, acquires, commits, discards, collects, run, strays, all_cleaned, all_dropped, all_brought,
}
use inferflux.Session.Hold.{run-acquire_busy}
use inferflux.Session.States.{count, run-count}
use inferflux.Session.Limit.{run-session_count}

abbrev handle : ℕ → HandleState
handle n = record no_state { sequence_id = pos n; sequence_generation = 1 }

abbrev alice : Text
alice = 97 ∷ []

abbrev bob : Text
bob = 98 ∷ []

abbrev carol : Text
carol = 99 ∷ []

-- Alice's session is leased, Bob's is idle and stores a state until time 30; there is room for no more.
abbrev manager : Manager
manager = record {
  max_sessions = 2;
  ttl = 10;
  entries =
      (alice, record new_entry { in_use = true; last_access = 5; expires_at = 15 })
      ∷ (
        bob,
        record new_entry { state = handle 4; has_state = true; last_access = 20; expires_at = 30 },
      )
      ∷ [];
}

abbrev traffic : List Call
traffic =
    acquires 21 carol
    ∷ commits 22 carol (handle 8)
    ∷ discards carol
    ∷ collects 40
    ∷ commits 41 bob (handle 9)
    ∷ []

bob_is_evicted : (acquire_lease 21 carol manager).1 ≡ granted (handle 4 ∷ [])
unfolding acquire_lease acquire_new eviction_candidate candidate_loop better find same is_empty
bob_is_evicted = refl

run-acquire_busy_example :
    acquire_lease 50 alice (run traffic manager) ≡ (run traffic manager, refused)
unfolding same find
run-acquire_busy_example =
    run-acquire_busy traffic manager alice 50 (tt, (refl, (tt, (tt, (refl, tt))))) refl

abbrev on_four : HandleState → Bool
on_four s = elim s.sequence_id [ pos n ↦ n == 4 | negsuc n ↦ false ]

run-count_example :
    count on_four (all_cleaned traffic manager)
      + count on_four (all_dropped traffic manager)
      + count on_four (states (run traffic manager).entries)
    ≡ count on_four (states manager.entries) + count on_four (all_brought traffic)
run-count_example = run-count on_four traffic manager

run-session_count_example :
    ((run traffic manager).max_sessions ≡ 2)
    × (session_count (run traffic manager) ≤ 2 + strays traffic manager)
unfolding session_count
run-session_count_example = run-session_count traffic manager (omega arith)
