-- ===== src/Radix.antt =====
-- runtime/prefix_cache/radix_prefix_cache.{h,cpp}: a tree of token sequences whose nodes keep the KV blocks
-- of the requests that computed them. Lookup touches the nodes under a shared lock with relaxed atomics;
-- here each method is one step.
pub mod Defs
pub mod Prefixes
pub mod Ops
pub mod Insertion
pub mod Eviction
pub mod Total
pub mod Keyed
pub mod Counts
pub mod Limits
pub mod Run
pub mod Tables
pub mod Blocks
pub mod Reuse
pub mod Found
mod Tests
