-- ===== src/Lanes.antt =====
-- runtime/execution/unified_batch_lane_dispatcher.{h,cpp}: batches are submitted to a decode and a prefill
-- lane, each with a worker thread, and their results are collected by handle. A step is one critical
-- section under the mutex, of a caller or of a worker, so that any interleaving of the threads is a list
-- of steps. Two calls of Stop at one time, or of Start, are not covered.
pub mod Defs
pub mod Steps
pub mod Entries
pub mod Counts
pub mod Permits
pub mod Logged
pub mod Faithful
pub mod Results
pub mod Progress
pub mod Work
pub mod Turns
pub mod Kept
pub mod Served
mod Tests
