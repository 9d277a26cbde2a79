-- ===== src/Lanes/Defs.antt =====
-- `UnifiedBatchLaneDispatcher`: its data and the critical sections of its methods.
use inferflux.Prelude.{
  ℕ, ◌+◌, ◌-◌, ◌%◌, ◌^◌, ◌==◌, Bool, true, false, not, ◌&&◌, ◌||◌, Option, none, some, List, [],
  ◌∷◌, ◌++◌, ltb, leb, max, if◌then◌else◌,
}
use inferflux.Prelude.Text.{Text}

-- Inputs and outputs of a batch, and the time that it has taken, are only passed on.
abbrev pub Input : Type 0
Input = ℕ

abbrev pub Output : Type 0
Output = ℕ

-- `ExecutionResult`.
pub record Result : Type 0 where
  pub success : Bool
  pub outputs : List Output
  pub error : Text
  pub elapsed_ms : ℕ

-- `WorkItem`.
pub record Item : Type 0 where
  pub handle : ℕ
  pub decode_lane : Bool
  pub inputs : List Input

-- `PendingState`, with the four members of a result as one.
pub record Pending : Type 0 where
  pub decode_lane : Bool
  pub ready : Bool
  pub result : Result
  pub enqueued_at : ℕ

-- A worker thread: it has not been started or has returned, it waits, or it executes an item.
pub data Worker : Type 0 where
  returned : Worker
  waiting : Worker
  executing : Item → Worker

-- The members of a lane: its queue, its count of pending entries and its worker.
pub record Lane : Type 0 where
  pub queue : List Item
  pub pending_count : ℕ
  pub worker : Worker

pub record Dispatcher : Type 0 where
  pub max_pending_per_lane : ℕ
  pub has_execute_fn : Bool
  pub next_handle : ℕ
  pub running : Bool
  pub stopping : Bool
  pub decode : Lane
  pub prefill : Lane
  pub pending : List (ℕ × Pending)

-- The lane that a Boolean `decode_lane` names.
abbrev pub lane : Bool → Dispatcher → Lane
lane decode_lane d = if decode_lane then d.decode else d.prefill

abbrev pub set_lane : Bool → Lane → Dispatcher → Dispatcher
set_lane true l d = record d { decode = l }
set_lane false l d = record d { prefill = l }

-- `pending_` as a map.
unfoldable pub find : ℕ → List (ℕ × Pending) → Option Pending
find h [] = none
find h (e ∷ es) = if e.0 == h then some e.1 else find h es

abbrev pub emplace : ℕ → Pending → List (ℕ × Pending) → List (ℕ × Pending)
emplace h p es = elim (find h es) [ none ↦ (h, p) ∷ es | some q ↦ es ]

unfoldable pub erase : ℕ → List (ℕ × Pending) → List (ℕ × Pending)
erase h [] = []
erase h (e ∷ es) = if e.0 == h then es else e ∷ erase h es

unfoldable pub update : ℕ → Pending → List (ℕ × Pending) → List (ℕ × Pending)
update h p [] = []
update h p (e ∷ es) = if e.0 == h then (h, p) ∷ es else e ∷ update h p es

-- `NormalizePendingLimit`.
abbrev pub normalize_pending_limit : ℕ → ℕ
normalize_pending_limit value = max 1 (if value == 0 then 64 else value)

abbrev pub empty_lane : Lane
empty_lane = record { queue = []; pending_count = 0; worker = returned }

-- The constructor.
unfoldable pub init : ℕ → Dispatcher
init max_pending_per_lane = record {
  max_pending_per_lane = normalize_pending_limit max_pending_per_lane;
  has_execute_fn = false;
  next_handle = 1;
  running = false;
  stopping = false;
  decode = empty_lane;
  prefill = empty_lane;
  pending = [];
}

-- `Start` after its call of `Stop`.
unfoldable pub start : Dispatcher → Dispatcher
start d = record d {
  has_execute_fn = true;
  stopping = false;
  running = true;
  decode = record d.decode { worker = waiting };
  prefill = record d.prefill { worker = waiting };
}

-- The first critical section of `Stop`.
unfoldable pub stop : Dispatcher → Dispatcher
stop d =
    if d.running
    then record d {
      stopping = true;
      decode = record d.decode { queue = [] };
      prefill = record d.prefill { queue = [] };
    }
    else d

-- The second, after both workers have returned.
unfoldable pub stopped : Dispatcher → Dispatcher
stopped d = record d {
  pending = [];
  decode = record d.decode { pending_count = 0 };
  prefill = record d.prefill { pending_count = 0 };
  has_execute_fn = false;
  stopping = false;
  running = false;
}

-- `IsRunning`.
unfoldable pub is_running : Dispatcher → Bool
is_running d = d.running && not d.stopping

abbrev pub no_result : Result
no_result = record { success = false; outputs = []; error = []; elapsed_ms = 0 }

abbrev pub is_none {ℓ} : {A : Type ℓ} → List A → Bool
is_none [] = true
is_none (x ∷ xs) = false

-- What `Submit` puts in, once it has a handle.
abbrev pub entered : ℕ → List Input → Bool → ℕ → Dispatcher → Dispatcher
entered handle inputs decode_lane now d =
    let l = lane decode_lane d in
    let p : Pending = record {
      decode_lane = decode_lane;
      ready = false;
      result = no_result;
      enqueued_at = now;
    } in
    let item : Item = record { handle = handle; decode_lane = decode_lane; inputs = inputs } in
    record (set_lane decode_lane
      (record l { queue = l.queue ++ item ∷ []; pending_count = l.pending_count + 1 }) d) {
        next_handle = (handle + 1) % 2 ^ 64;
        pending = emplace handle p d.pending;
      }

-- `Submit` at a time: the handle, or 0.
unfoldable pub submit : List Input → Bool → ℕ → Dispatcher → Dispatcher × ℕ
submit inputs decode_lane now d =
    if is_none inputs
      || not d.running
      || d.stopping
      || not d.has_execute_fn
      || leb d.max_pending_per_lane (lane decode_lane d).pending_count
    then (d, 0)
    else (entered d.next_handle inputs decode_lane now d, d.next_handle)

-- `CollectStatus`.
pub data CollectStatus : Type 0 where
  still_pending : CollectStatus
  success : CollectStatus
  failed : CollectStatus
  missing : CollectStatus

-- What `TryCollect` returns, and writes to the arguments where they are given: the lane of an entry, and
-- the result of a ready one.
pub record Collected : Type 0 where
  pub status : CollectStatus
  pub decode_lane : Option Bool
  pub result : Option Result

-- The outputs are written for a success alone.
abbrev pub handed_out : Result → Result
handed_out r = if r.success then r else record r { outputs = [] }

-- A permit goes back to a lane.
abbrev pub give_back : Lane → Lane
give_back l = record l {
  pending_count = if ltb 0 l.pending_count then l.pending_count - 1 else l.pending_count;
}

unfoldable pub try_collect : ℕ → Dispatcher → Dispatcher × Collected
try_collect handle d = elim (if handle == 0 then none else find handle d.pending) [
  | none ↦ (d, record { status = missing; decode_lane = none; result = none })
  | some p ↦
      if not p.ready
      then (d, record { status = still_pending; decode_lane = some p.decode_lane; result = none })
      else (
        record (set_lane p.decode_lane (give_back (lane p.decode_lane d)) d) {
          pending = erase handle d.pending;
        },
        record {
          status = if p.result.success then success else failed;
          decode_lane = some p.decode_lane;
          result = some (handed_out p.result);
        },
      )
]

-- `PendingCount`.
unfoldable pub pending_count : Bool → Dispatcher → ℕ
pending_count decode_lane d = (lane decode_lane d).pending_count

-- The loop of `SweepAbandoned` over the entries: those that stay, and the lanes with the permits back.
unfoldable pub sweep_loop :
    ℕ → List (ℕ × Pending) → Lane → Lane → (List (ℕ × Pending) × Lane × Lane) × ℕ
sweep_loop cutoff [] dl pl = (([], dl, pl), 0)
sweep_loop cutoff (e ∷ es) dl pl =
    let is_old = ltb e.1.enqueued_at cutoff in
    let r =
      sweep_loop cutoff es (if is_old && e.1.decode_lane then give_back dl else dl)
        (if is_old && not e.1.decode_lane then give_back pl else pl) in
    if is_old then (r.0, r.1 + 1) else ((e ∷ r.0.0, r.0.1, r.0.2), r.1)

-- `SweepAbandoned`, given the time before which an entry is too old.
unfoldable pub sweep_abandoned : ℕ → Dispatcher → Dispatcher × ℕ
sweep_abandoned cutoff d =
    let r = sweep_loop cutoff d.pending d.decode d.prefill in
    (record d { pending = r.0.0; decode = r.0.1; prefill = r.0.2 }, r.1)

-- The loop of a worker that drops the items which have no entry any more.
unfoldable pub next_item : List (ℕ × Pending) → List Item → Option Item × List Item
next_item es [] = (none, [])
next_item es (i ∷ is) =
    let later = next_item es is in elim (find i.handle es) [ none ↦ later | some p ↦ (some i, is) ]

-- The first critical section of `WorkerLoop`, at a worker that waits: it returns, waits on, or takes an
-- item.
abbrev pub picked : Dispatcher → Lane → Lane
picked d l =
    let taken = next_item d.pending l.queue in
    if is_none l.queue
    then (if d.stopping then record l { worker = returned } else l)
    else record l {
      queue = taken.1;
      worker = elim taken.0 [ none ↦ waiting | some i ↦ executing i ];
    }

unfoldable pub pick : Bool → Dispatcher → Dispatcher
pick decode_lane d = elim (lane decode_lane d).worker [
  | waiting ↦ set_lane decode_lane (picked d (lane decode_lane d)) d
  | _ ↦ d
]

-- The second, at a worker that has executed an item.
abbrev pub recorded : ℕ → Result → List (ℕ × Pending) → List (ℕ × Pending)
recorded handle result es = elim (find handle es) [
  | none ↦ es
  | some p ↦ update handle (record p { ready = true; result = result }) es
]

-- `execute_fn_`, with an exception as a failed result, is an argument.
unfoldable pub complete : (List Input → Bool → Result) → Bool → Dispatcher → Dispatcher
complete execute decode_lane d = elim (lane decode_lane d).worker [
  | executing i ↦
      record (set_lane decode_lane (record (lane decode_lane d) { worker = waiting }) d) {
        pending = recorded i.handle (execute i.inputs decode_lane) d.pending;
      }
  | _ ↦ d
]
