-- ===== src/Speculative.antt =====
-- runtime/speculative/speculative_decoder.{h,cpp}: a draft of tokens in chunks, and its validation
-- against the tokens of the target model.
pub mod Defs
pub mod Chunks
pub mod Validate
mod Tests
