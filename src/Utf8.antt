-- ===== src/Utf8.antt =====
-- runtime/text/incremental_utf8.{h,cpp}: pieces of bytes assembled into UTF-8 text.
pub mod Defs
pub mod Classify
pub mod Stream
pub mod Pending
pub mod Wellformed
mod Tests
