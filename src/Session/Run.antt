-- ===== src/Session/Run.antt =====
-- Calls of the session manager in a sequence.
use inferflux.Prelude.{ℕ, ◌+◌, none, some, List, [], ◌∷◌, ◌++◌, if◌then◌else◌}
use inferflux.Prelude.Text.{Text, is_empty}
use inferflux.Session.Defs.{
  HandleState, Manager, stored, find, acquire_lease, commit_lease, release_lease,
  discard_leased_state, collect_expired, drain_all,
}

-- A call, with the time at which it reads the clock.
pub data Call : Type 0 where
  acquires : ℕ → Text → Call
  commits : ℕ → Text → HandleState → Call
  releases : ℕ → Text → Call
  discards : Text → Call
  collects : ℕ → Call
  drains : Call

unfoldable pub step : Call → Manager → Manager
step (acquires now id) m = (acquire_lease now id m).0
step (commits now id state) m = commit_lease now id state m
step (releases now id) m = release_lease now id m
step (discards id) m = discard_leased_state id m
step (collects now) m = (collect_expired now m).0
step drains m = (drain_all m).0

unfoldable pub run : List Call → Manager → Manager
run [] m = m
run (c ∷ cs) m = run cs (step c m)

-- The state that a session has stored.
unfoldable pub stored_at : Text → Manager → List HandleState
stored_at id m = elim (find id m.entries) [ none ↦ [] | some e ↦ stored e ]

-- The states that a call hands to its caller to be cleaned up.
unfoldable pub cleaned : Call → Manager → List HandleState
cleaned (acquires now id) m = (acquire_lease now id m).1.cleanup_states
cleaned (commits now id state) m = []
cleaned (releases now id) m = []
cleaned (discards id) m = []
cleaned (collects now) m = (collect_expired now m).1
cleaned drains m = (drain_all m).1

-- The states that a call replaces or discards, on its caller's order.
unfoldable pub dropped : Call → Manager → List HandleState
dropped (acquires now id) m = []
dropped (commits now id state) m = if is_empty id then [] else stored_at id m
dropped (releases now id) m = []
dropped (discards id) m = if is_empty id then [] else stored_at id m
dropped (collects now) m = []
dropped drains m = []

-- The state that a call brings in.
unfoldable pub brought : Call → List HandleState
brought (commits now id state) = if is_empty id then [] else state ∷ []
brought (acquires now id) = []
brought (releases now id) = []
brought (discards id) = []
brought (collects now) = []
brought drains = []

unfoldable pub all_cleaned : List Call → Manager → List HandleState
all_cleaned [] m = []
all_cleaned (c ∷ cs) m = cleaned c m ++ all_cleaned cs (step c m)

unfoldable pub all_dropped : List Call → Manager → List HandleState
all_dropped [] m = []
all_dropped (c ∷ cs) m = dropped c m ++ all_dropped cs (step c m)

unfoldable pub all_brought : List Call → List HandleState
all_brought [] = []
all_brought (c ∷ cs) = brought c ++ all_brought cs

-- A commit of a session that the manager does not know, which `entries_[session_id]` inserts.
unfoldable pub stray : Call → Manager → ℕ
stray (commits now id state) m =
    if is_empty id then 0 else elim (find id m.entries) [ none ↦ 1 | some e ↦ 0 ]
stray (acquires now id) m = 0
stray (releases now id) m = 0
stray (discards id) m = 0
stray (collects now) m = 0
stray drains m = 0

unfoldable pub strays : List Call → Manager → ℕ
strays [] m = 0
strays (c ∷ cs) m = stray c m + strays cs (step c m)
