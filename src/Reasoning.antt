-- ===== src/Reasoning.antt =====
-- runtime/text/reasoning_splitter.{h,cpp}: the text of a model's output is split into the reasoning between
-- the tags <think> and </think> and the content around it, while it arrives in pieces.
pub mod Defs
pub mod Pending
pub mod Tags
pub mod Reads
pub mod Drains
pub mod Cuts
mod Tests
