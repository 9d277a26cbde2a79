-- ===== src/Channel/Tickets.antt =====
-- The stages that a channel records for the tickets of its packets.
use inferflux.Prelude.{
  ℕ, ◌≤◌, ◌≡◌, false, none, some, List, [], ◌∷◌, arith, ltb, ◌==◌, if◌then◌else◌, length, ◌↔◌, ◌&&◌,
  ◌⊎◌,
}
use inferflux.Channel.Defs.{
  Packet, Channel, enqueue, update_ticket_stage, get_ticket_stage, assign, find_stage, Stage,
}

-- The stage of a ticket, with a new one recorded for `id`.
abbrev pub overridden : ℕ → Stage → (ℕ → Stage) → ℕ → Stage
overridden id stage stages j = if j == id then stage else stages j

find_stage-assign :
    (id : ℕ) (stage : Stage) (m : List (ℕ × Stage)) (j : ℕ)
    → find_stage j (assign id stage m) ≡ (if j == id then some stage else find_stage j m)
unfolding assign find_stage
find_stage-assign id stage [] j = ground arith
find_stage-assign id stage ((i, s) ∷ m) j = ground (arith, find_stage-assign id stage m j)

-- `Enqueue` refuses a packet, and then no stage changes, exactly when the queue is full; otherwise
-- every ticket keeps its stage but that of the packet, which gets the packet's stage when its id is
-- not 0.
pub get_ticket_stage-enqueue :
    (p : Packet) (c : Channel) (j : ℕ)
    → (((enqueue p c).1 ≡ false) ↔ (c.capacity ≤ length c.queue))
      × (get_ticket_stage j (enqueue p c).0 ≡ (
          if (enqueue p c).1 && ltb 0 p.ticket_id
          then overridden p.ticket_id p.ticket_stage (λ i. get_ticket_stage i c) j
          else get_ticket_stage j c))
unfolding enqueue get_ticket_stage
get_ticket_stage-enqueue p c j = (
  ((λ e. ground arith), λ e. ground arith),
  ground (arith, find_stage-assign p.ticket_id p.ticket_stage c.ticket_stages j),
)

-- `UpdateTicketStage` succeeds exactly on a recorded ticket other than 0; then `GetTicketStage` reads
-- the new stage for it, and any other ticket, or every ticket when it fails, keeps its stage.
pub get_ticket_stage-update :
    (id : ℕ) (stage : Stage) (c : Channel) (j : ℕ)
    → (((update_ticket_stage id stage c).1 ≡ false)
        ↔ ((id ≡ 0) ⊎ (find_stage id c.ticket_stages ≡ none)))
      × (get_ticket_stage j (update_ticket_stage id stage c).0 ≡ (
          if (update_ticket_stage id stage c).1
          then overridden id stage (λ i. get_ticket_stage i c) j
          else get_ticket_stage j c))
unfolding update_ticket_stage get_ticket_stage
get_ticket_stage-update id stage c j = (
  ((λ e. ground arith), λ e. ground arith),
  ground (arith, find_stage-assign id stage c.ticket_stages j),
)
