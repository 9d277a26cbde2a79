-- ===== src/Session/Defs.antt =====
-- `SessionHandleManager`, its entries and its operations.
use inferflux.Prelude.{
  ℕ, zero, suc, ◌+◌, ◌*◌, ◌==◌, Bool, true, false, ◌&&◌, ◌||◌, Option, none, some, List, [], ◌∷◌,
  ◌++◌, ltb, leb, if◌then◌else◌, length,
}
use inferflux.Prelude.Int.{ℤ, pos, negsuc}
use inferflux.Prelude.Text.{Text, same, is_empty}

-- `SessionHandleState`.
pub record HandleState : Type 0 where
  pub model_id : Text
  pub sequence_id : ℤ
  pub sequence_generation : ℕ
  pub prompt_tokens : List ℤ
  pub block_table : List ℤ

-- `SessionHandleState{}`.
abbrev pub no_state : HandleState
no_state = record {
  model_id = [];
  sequence_id = negsuc 0;
  sequence_generation = 0;
  prompt_tokens = [];
  block_table = [];
}

pub record Entry : Type 0 where
  pub state : HandleState
  pub has_state : Bool
  pub in_use : Bool
  pub last_access : ℕ
  pub expires_at : ℕ

-- `Entry{}`.
abbrev pub new_entry : Entry
new_entry = record {
  state = no_state;
  has_state = false;
  in_use = false;
  last_access = 0;
  expires_at = 0;
}

-- The entries in the order of an iteration over the map.
pub record Manager : Type 0 where
  pub max_sessions : ℕ
  pub ttl : ℕ
  pub entries : List (Text × Entry)

pub data Status : Type 0 where
  leased busy : Status

pub record LeaseResult : Type 0 where
  pub status : Status
  pub has_state : Bool
  pub state : HandleState
  pub cleanup_states : List HandleState

-- `LeaseResult{}`.
abbrev pub refused : LeaseResult
refused = record { status = busy; has_state = false; state = no_state; cleanup_states = [] }

-- The constructor. Its `ttl` is in milliseconds, as is the member of the source; here the member is in the
-- nanoseconds of the times that it is added to.
unfoldable pub init : ℕ → ℤ → Manager
init max_sessions ttl = record {
  max_sessions = if max_sessions == 0 then 1 else max_sessions;
  ttl = 1_000_000 * milliseconds ttl;
  entries = [];
}
  where
    milliseconds : ℤ → ℕ
    milliseconds (pos n) = if n == 0 then 1 else n
    milliseconds (negsuc n) = 1

-- `entries_.find(id)`.
unfoldable pub find : Text → List (Text × Entry) → Option Entry
find id [] = none
find id ((k, e) ∷ es) = if same k id then some e else find id es

-- The assignment of an entry that is there, or else its insertion; where an unordered map puts a new
-- entry is left open by the language, here it is the front.
unfoldable pub update : Text → Entry → List (Text × Entry) → List (Text × Entry)
update id x [] = []
update id x ((k, e) ∷ es) =
    let rest = update id x es in if same k id then (k, x) ∷ es else (k, e) ∷ rest

unfoldable pub assign : Text → Entry → List (Text × Entry) → List (Text × Entry)
assign id x es = elim (find id es) [ none ↦ (id, x) ∷ es | some e ↦ update id x es ]

-- `entries_.erase(it)` at the iterator that `find` gave, and at the one of a position.
unfoldable pub erase : Text → List (Text × Entry) → List (Text × Entry)
erase id [] = []
erase id ((k, e) ∷ es) = let rest = erase id es in if same k id then es else (k, e) ∷ rest

unfoldable pub erase_at : ℕ → List (Text × Entry) → List (Text × Entry)
erase_at i [] = []
erase_at zero (x ∷ es) = es
erase_at (suc i) (x ∷ es) = x ∷ erase_at i es

-- One turn of the loop of `FindEvictionCandidateLocked`.
unfoldable pub better : ℕ → Entry → Option (ℕ × Entry) → Option (ℕ × Entry)
better i e none = if e.in_use then none else some (i, e)
better i e (some (j, b)) =
    if e.in_use
    then some (j, b)
    else (if ltb e.last_access b.last_access then some (i, e) else some (j, b))

unfoldable pub candidate_loop : ℕ → Option (ℕ × Entry) → List (Text × Entry) → Option (ℕ × Entry)
candidate_loop i best [] = best
candidate_loop i best ((k, e) ∷ es) = candidate_loop (i + 1) (better i e best) es

-- `FindEvictionCandidateLocked`.
unfoldable pub eviction_candidate : List (Text × Entry) → Option (ℕ × Entry)
eviction_candidate es = candidate_loop 0 none es

abbrev pub stored : Entry → List HandleState
stored e = if e.has_state then e.state ∷ [] else []

-- The entry that `AcquireLease` adds for a session it does not know.
abbrev pub fresh_entry : ℕ → Manager → Entry
fresh_entry now m = record new_entry { in_use = true; last_access = now; expires_at = now + m.ttl }

abbrev pub granted : List HandleState → LeaseResult
granted states = record refused { status = leased; cleanup_states = states }

-- `AcquireLease` of a session that is not in the map.
unfoldable pub acquire_new : ℕ → Text → Manager → Manager × LeaseResult
acquire_new now id m =
    if leb m.max_sessions (length m.entries)
    then (elim (eviction_candidate m.entries) [
      | none ↦ (m, refused)
      | some (i, e) ↦ (
        record m { entries = (id, fresh_entry now m) ∷ erase_at i m.entries },
        granted (stored e),
      )
    ])
    else (record m { entries = (id, fresh_entry now m) ∷ m.entries }, granted [])

-- The two times that an access sets.
abbrev pub touch : ℕ → Manager → Entry → Entry
touch now m e = record e { last_access = now; expires_at = now + m.ttl }

-- The entry after its state has been dropped, when that has expired.
abbrev pub expire : ℕ → Entry → Entry
expire now e =
    if e.has_state && leb e.expires_at now
    then record e { has_state = false; state = no_state }
    else e

-- `AcquireLease` of a session in the map that no one holds.
unfoldable pub acquire_idle : ℕ → Text → Entry → Manager → Manager × LeaseResult
acquire_idle now id e m =
    let e' = expire now e in
    (
      record m { entries = update id (touch now m (record e' { in_use = true })) m.entries },
      record {
        status = leased;
        has_state = e'.has_state;
        state = if e'.has_state then e'.state else no_state;
        cleanup_states = if e.has_state && leb e.expires_at now then e.state ∷ [] else [];
      },
    )

-- `AcquireLease`.
unfoldable pub acquire_lease : ℕ → Text → Manager → Manager × LeaseResult
acquire_lease now id m = if is_empty id then (m, refused) else elim (find id m.entries) [
  | none ↦ acquire_new now id m
  | some e ↦ if e.in_use then (m, refused) else acquire_idle now id e m
]

-- The entry that `CommitLease` leaves.
abbrev pub committed : ℕ → HandleState → Manager → Entry
committed now state m = record {
  state = state;
  has_state = true;
  in_use = false;
  last_access = now;
  expires_at = now + m.ttl;
}

-- `CommitLease`.
unfoldable pub commit_lease : ℕ → Text → HandleState → Manager → Manager
commit_lease now id state m =
    if is_empty id then m else record m { entries = assign id (committed now state m) m.entries }

-- `ReleaseLease`.
unfoldable pub release_lease : ℕ → Text → Manager → Manager
release_lease now id m = if is_empty id then m else elim (find id m.entries) [
  | none ↦ m
  | some e ↦ record m {
    entries =
        if e.has_state
        then update id (touch now m (record e { in_use = false })) m.entries
        else erase id m.entries;
  }
]

-- `DiscardLeasedState`.
unfoldable pub discard_leased_state : Text → Manager → Manager
discard_leased_state id m = if is_empty id then m else elim (find id m.entries) [
  | none ↦ m
  | some e ↦ record m {
    entries = update id (record e { state = no_state; has_state = false }) m.entries;
  }
]

-- The loop of `CollectExpired`: the entries it keeps, and the states of those it erases.
unfoldable pub collect_loop : ℕ → List (Text × Entry) → List (Text × Entry) × List HandleState
collect_loop now [] = ([], [])
collect_loop now ((k, e) ∷ es) =
    let (kept, expired) = collect_loop now es in
    if e.in_use || ltb now e.expires_at
    then ((k, e) ∷ kept, expired)
    else (kept, stored e ++ expired)

-- `CollectExpired`.
unfoldable pub collect_expired : ℕ → Manager → Manager × List HandleState
collect_expired now m =
    let (kept, expired) = collect_loop now m.entries in (record m { entries = kept }, expired)

-- The loop of `DrainAll`.
unfoldable pub states : List (Text × Entry) → List HandleState
states [] = []
states ((k, e) ∷ es) = stored e ++ states es

-- `DrainAll`.
unfoldable pub drain_all : Manager → Manager × List HandleState
drain_all m = (record m { entries = [] }, states m.entries)

-- `SessionCount`.
unfoldable pub session_count : Manager → ℕ
session_count m = length m.entries
