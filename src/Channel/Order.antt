-- ===== src/Channel/Order.antt =====
-- The packets of a channel over the calls of its clients.
use mathlib.Core.List.{append-nil, append_assoc}
use inferflux.Prelude.{
  ℕ, ◌≤◌, ◌≡◌, refl, sym, ◌∙◌, ap, List, [], ◌∷◌, ◌++◌, arith, if◌then◌else◌, length, length-append,
  max,
}
use inferflux.Channel.Defs.{
  Packet, Channel, init, shrink, set_capacity, enqueue, try_dequeue, update_ticket_stage, clear,
  Call, enqueues, dequeues, sets_capacity, updates, clears, step, run, accepted, delivered, to_list,
  append_control_metadata, Stage,
}

pub record IsBounded (c : Channel) : Type 0 where
  pub some_room : 1 ≤ c.capacity
  pub fits : length c.queue ≤ c.capacity

shrink-fits : (n : ℕ) (ps : List Packet) → length (shrink n ps) ≤ n
unfolding shrink
shrink-fits n [] = omega arith
shrink-fits n (p ∷ ps) = ground (arith, shrink-fits n ps)

try_dequeue-IsBounded :
    (c : Channel) (q : List Packet) → c.queue ≡ q → IsBounded c → IsBounded (try_dequeue c).0
unfolding try_dequeue
try_dequeue-IsBounded c [] e b = ground arith
try_dequeue-IsBounded c (p ∷ ps) e b = ground arith

update_queue :
    (id : ℕ) (stage : Stage) (c : Channel)
    → ((update_ticket_stage id stage c).0.queue ≡ c.queue)
      × ((update_ticket_stage id stage c).0.capacity ≡ c.capacity)
unfolding update_ticket_stage
update_queue id stage c = ground arith

step-IsBounded : (k : Call) (c : Channel) → IsBounded c → IsBounded (step k c)
unfolding step enqueue set_capacity clear
step-IsBounded (enqueues p) c b =
    ground (arith, length-append c.queue (append_control_metadata p ∷ []))
step-IsBounded dequeues c b = try_dequeue-IsBounded c c.queue refl b
step-IsBounded (sets_capacity n) c b = record {
  some_room = omega arith;
  fits = shrink-fits (max 1 n) c.queue;
}
step-IsBounded (updates id stage) c b = ground (arith, update_queue id stage c)
step-IsBounded clears c b = ground arith

-- After any calls, `SetCapacity` and `Clear` included, the capacity is at least 1 and the queue holds
-- no more packets than the capacity.
pub run-IsBounded : (ks : List Call) (c : Channel) → IsBounded c → IsBounded (run ks c)
unfolding run
run-IsBounded [] c b = b
run-IsBounded (k ∷ ks) c b = run-IsBounded ks (step k c) (step-IsBounded k c b)

pub init-IsBounded : (n : ℕ) → IsBounded (init n)
unfolding init
init-IsBounded n = record { some_room = omega arith; fits = omega arith }

-- Calls that drop no packet.
abbrev pub Keeps : Call → Type 0
Keeps (sets_capacity n) = ⊥
Keeps clears = ⊥
Keeps _ = Unit {0}

abbrev pub AllKeep : List Call → Type 0
AllKeep [] = Unit {0}
AllKeep (k ∷ ks) = Keeps k × AllKeep ks

dequeue_front :
    (c : Channel) (q : List Packet)
    → c.queue ≡ q
    → to_list (try_dequeue c).1 ++ (try_dequeue c).0.queue ≡ q
unfolding try_dequeue
dequeue_front c [] e = ground arith
dequeue_front c (p ∷ ps) e = ground arith

enqueue_queue :
    (p : Packet) (c : Channel)
    → (enqueue p c).0.queue
      ≡ c.queue ++ (if (enqueue p c).1 then append_control_metadata p ∷ [] else [])
unfolding enqueue
enqueue_queue p c = ground (arith, append-nil c.queue)

-- First in, first out, and nothing lost: over any calls other than `SetCapacity` and `Clear`, the
-- packets handed out followed by those still queued are the packets queued at first followed by the
-- packets accepted, each with its control metadata.
pub run_fifo :
    (ks : List Call) (c : Channel)
    → AllKeep ks
    → delivered ks c ++ (run ks c).queue ≡ c.queue ++ accepted ks c
unfolding run delivered accepted step
run_fifo [] c h = sym (append-nil c.queue)
run_fifo (enqueues p ∷ ks) c h =
    run_fifo ks (step (enqueues p) c) h.1
    ∙ ap (λ q. q ++ accepted ks (step (enqueues p) c)) (enqueue_queue p c)
    ∙ append_assoc c.queue _ _
run_fifo (dequeues ∷ ks) c h =
    append_assoc (to_list (try_dequeue c).1) _ _
    ∙ ap (◌++◌ (to_list (try_dequeue c).1)) (run_fifo ks (step dequeues c) h.1)
    ∙ sym (append_assoc (to_list (try_dequeue c).1) _ _)
    ∙ ap (λ q. q ++ accepted ks (step dequeues c)) (dequeue_front c c.queue refl)
run_fifo (sets_capacity n ∷ ks) c h = absurd h.0
run_fifo (updates id stage ∷ ks) c h =
    run_fifo ks (step (updates id stage) c) h.1
    ∙ ap (λ q. q ++ accepted ks (step (updates id stage) c)) (update_queue id stage c).0
run_fifo (clears ∷ ks) c h = absurd h.0
