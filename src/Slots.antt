-- ===== src/Slots.antt =====
-- runtime/scheduler/sequence_slot_manager.{h,cpp}: the slots that tie requests to KV sequences.
-- The mutex makes each public method one step, so a method is a function from state to state.
-- Times are nanoseconds of the steady clock: an argument stands for each reading of the clock.
pub mod Defs
pub mod Ops
pub mod Query
pub mod Run
pub mod Invariant
pub mod Acquire
pub mod Live
pub mod Generation
pub mod Stale
pub mod Release
mod Tests
