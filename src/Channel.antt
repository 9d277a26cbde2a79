-- ===== src/Channel.antt =====
-- runtime/disaggregated/kv_channel.{h,cpp}: the in-process queue of KV packets and the stages of
-- their tickets. The mutex makes each method one step.
pub mod Defs
pub mod Order
pub mod Tickets
mod Tests
