-- ===== src/KvCache.antt =====
-- runtime/kv_cache/paged_kv_cache.{h,cpp}: the pages of the KV cache, their owners, and the swapping
-- to host memory. The mutex makes each public method one step.
pub mod Defs
pub mod Select
pub mod Ops
pub mod Take
pub mod Reserve
pub mod Owners
pub mod Swap
mod Tests
