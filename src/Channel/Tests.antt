-- ===== src/Channel/Tests.antt =====
-- Runs of the channel on small inputs, and its theorems at such inputs.
use inferflux.Prelude.{ℕ, ◌≡◌, refl, List, [], ◌∷◌, ◌++◌}
use inferflux.Prelude.Int.{pos, negsuc}
use inferflux.Prelude.Text.{codes}
use inferflux.Channel.Defs.{
  enqueued, acknowledged, Packet, Channel, append_control_metadata, Call, enqueues, dequeues,
  updates, run, accepted, delivered, stage_text, decimal,
}
use inferflux.Channel.Order.{run_fifo}

abbrev packet : ℕ → Packet
packet ticket = record {
  request_id = 3;
  ticket_id = ticket;
  ticket_stage = enqueued;
  prompt_tokens = 5 ∷ 6 ∷ [];
  kv_blob = [];
  kv_page = pos 42;
  n_past = negsuc 0;
  sequence_id = negsuc 0;
  metadata = [];
  enqueue_time = 0;
}

-- One packet, of ticket 9, is queued, and there is room for one more.
abbrev channel : Channel
channel = record { queue = packet 9 ∷ []; ticket_stages = (9, enqueued) ∷ []; capacity = 2 }

-- The third packet is refused.
abbrev traffic : List Call
traffic = enqueues (packet 4) ∷ enqueues (packet 5) ∷ updates 4 acknowledged ∷ dequeues ∷ []

metadata_text :
    (append_control_metadata (packet 17)).metadata
    ≡ codes "|ticket=17|ticket_stage=enqueued|kv_page=42"
unfolding append_control_metadata decimal stage_text
metadata_text = refl

run_fifo_example :
    delivered traffic channel ++ (run traffic channel).queue
    ≡ channel.queue ++ accepted traffic channel
run_fifo_example = run_fifo traffic channel (tt, (tt, (tt, (tt, tt))))
