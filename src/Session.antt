-- ===== src/Session.antt =====
-- scheduler/session_handle_manager.{h,cpp}: the sessions that keep a sequence and its KV blocks between
-- requests, and the lease that one request at a time holds on a session. The mutex makes each method one
-- step, and a method's `steady_clock::now()` is an argument of it.
pub mod Defs
pub mod Run
pub mod Leases
pub mod Hold
pub mod States
pub mod Limit
mod Tests
