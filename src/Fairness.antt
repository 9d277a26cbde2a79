-- ===== src/Fairness.antt =====
-- scheduler/fairness_controller.{h,cpp}: when a queued request takes the place of one in the batch, and
-- how many tokens a low-priority request may decode in a row.
pub mod Defs
pub mod Preempt
pub mod Timeslice
mod Tests
