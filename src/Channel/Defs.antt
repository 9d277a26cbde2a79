-- ===== src/Channel/Defs.antt =====
-- `KVChannel` and its packets.
use inferflux.Prelude.{
  ℕ, zero, suc, ◌+◌, ◌/◌, ◌%◌, Bool, true, false, Option, none, some, List, [], ◌∷◌, ◌++◌, ltb, leb,
  ◌==◌, if◌then◌else◌, length, max,
}
use inferflux.Prelude.Text.{codes}
use inferflux.Prelude.Int.{ℤ, pos, negsuc}

-- `KVTicketStage`.
pub data Stage : Type 0 where
  unset enqueued acknowledged committed timed_out : Stage

-- `KVPacket`. Its text is a list of bytes.
pub record Packet : Type 0 where
  pub request_id : ℕ
  pub ticket_id : ℕ
  pub ticket_stage : Stage
  pub prompt_tokens : List ℕ
  pub kv_blob : List ℕ
  pub kv_page : ℤ
  pub n_past : ℤ
  pub sequence_id : ℤ
  pub metadata : List ℕ
  pub enqueue_time : ℕ

-- `KVChannel`, the front of the queue first; the stages are a map from tickets.
pub record Channel : Type 0 where
  pub queue : List Packet
  pub ticket_stages : List (ℕ × Stage)
  pub capacity : ℕ

-- `KVTicketStageToString`.
unfoldable pub stage_text : Stage → List ℕ
stage_text unset = codes "none"
stage_text enqueued = codes "enqueued"
stage_text acknowledged = codes "acknowledged"
stage_text committed = codes "committed"
stage_text timed_out = codes "timed_out"

-- `std::to_string` of a number with at most `fuel` digits.
unfoldable pub decimal : ℕ → ℕ → List ℕ
decimal zero n = []
decimal (suc fuel) n =
    let front = decimal fuel (n / 10) in
    if ltb n 10 then (n + 48) ∷ [] else front ++ (n % 10 + 48) ∷ []

-- `AppendControlMetadata`. A `uint64_t` has at most 20 digits, an `int` at most 10.
unfoldable pub append_control_metadata : Packet → Packet
append_control_metadata p = record p { metadata = p.metadata ++ ticket ++ page p.kv_page }
  where
    ticket : List ℕ
    ticket =
        if ltb 0 p.ticket_id
        then (codes "|ticket=" ++ decimal 20 p.ticket_id)
          ++ codes "|ticket_stage="
          ++ stage_text p.ticket_stage
        else []

    page : ℤ → List ℕ
    page (pos n) = codes "|kv_page=" ++ decimal 10 n
    page (negsuc n) = []

-- `ticket_stages_[id] = stage`.
unfoldable pub assign : ℕ → Stage → List (ℕ × Stage) → List (ℕ × Stage)
assign id stage [] = (id, stage) ∷ []
assign id stage ((i, s) ∷ m) =
    let rest = assign id stage m in if i == id then (i, stage) ∷ m else (i, s) ∷ rest

-- `ticket_stages_.find(id)`.
unfoldable pub find_stage : ℕ → List (ℕ × Stage) → Option Stage
find_stage id [] = none
find_stage id ((i, s) ∷ m) = if i == id then some s else find_stage id m

-- The constructor.
unfoldable pub init : ℕ → Channel
init capacity = record { queue = []; ticket_stages = []; capacity = max 1 capacity }

-- The loop of `SetCapacity`, which drops from the front.
unfoldable pub shrink : ℕ → List Packet → List Packet
shrink capacity [] = []
shrink capacity (p ∷ ps) =
    let rest = shrink capacity ps in if ltb capacity (length ps + 1) then rest else p ∷ ps

-- `SetCapacity`.
unfoldable pub set_capacity : ℕ → Channel → Channel
set_capacity capacity c = record c {
  capacity = max 1 capacity;
  queue = shrink (max 1 capacity) c.queue;
}

-- `Enqueue`.
unfoldable pub enqueue : Packet → Channel → Channel × Bool
enqueue p c = if leb c.capacity (length c.queue) then (c, false) else (
  record c {
    ticket_stages =
        if ltb 0 p.ticket_id
        then assign p.ticket_id p.ticket_stage c.ticket_stages
        else c.ticket_stages;
    queue = c.queue ++ append_control_metadata p ∷ [];
  },
  true,
)

-- `TryDequeue`.
unfoldable pub try_dequeue : Channel → Channel × Option Packet
try_dequeue c = elim c.queue [ [] ↦ (c, none) | p ∷ ps ↦ (record c { queue = ps }, some p) ]

-- `Size`.
unfoldable pub size : Channel → ℕ
size c = length c.queue

-- `UpdateTicketStage`.
unfoldable pub update_ticket_stage : ℕ → Stage → Channel → Channel × Bool
update_ticket_stage id stage c =
    if id == 0 then (c, false) else elim (find_stage id c.ticket_stages) [
      | none ↦ (c, false)
      | some s ↦ (record c { ticket_stages = assign id stage c.ticket_stages }, true)
    ]

-- `GetTicketStage`.
unfoldable pub get_ticket_stage : ℕ → Channel → Stage
get_ticket_stage id c =
    if id == 0 then unset else (elim (find_stage id c.ticket_stages) [ none ↦ unset | some s ↦ s ])

-- `Clear`.
unfoldable pub clear : Channel → Channel
clear c = record c { queue = []; ticket_stages = [] }

-- The calls of a client.
pub data Call : Type 0 where
  enqueues : Packet → Call
  dequeues : Call
  sets_capacity : ℕ → Call
  updates : ℕ → Stage → Call
  clears : Call

unfoldable pub step : Call → Channel → Channel
step (enqueues p) c = (enqueue p c).0
step dequeues c = (try_dequeue c).0
step (sets_capacity n) c = set_capacity n c
step (updates id stage) c = (update_ticket_stage id stage c).0
step clears c = clear c

unfoldable pub run : List Call → Channel → Channel
run [] c = c
run (k ∷ ks) c = run ks (step k c)

-- The packets that a run accepts, and those that it hands out.
unfoldable pub accepted : List Call → Channel → List Packet
accepted [] c = []
accepted (enqueues p ∷ ks) c =
    (if (enqueue p c).1 then append_control_metadata p ∷ [] else [])
    ++ accepted ks (step (enqueues p) c)
accepted (dequeues ∷ ks) c = accepted ks (step dequeues c)
accepted (sets_capacity n ∷ ks) c = accepted ks (step (sets_capacity n) c)
accepted (updates id stage ∷ ks) c = accepted ks (step (updates id stage) c)
accepted (clears ∷ ks) c = accepted ks (step clears c)

abbrev pub to_list : Option Packet → List Packet
to_list none = []
to_list (some p) = p ∷ []

unfoldable pub delivered : List Call → Channel → List Packet
delivered [] c = []
delivered (dequeues ∷ ks) c = to_list (try_dequeue c).1 ++ delivered ks (step dequeues c)
delivered (enqueues p ∷ ks) c = delivered ks (step (enqueues p) c)
delivered (sets_capacity n ∷ ks) c = delivered ks (step (sets_capacity n) c)
delivered (updates id stage ∷ ks) c = delivered ks (step (updates id stage) c)
delivered (clears ∷ ks) c = delivered ks (step clears c)
