-- ===== src/Selection.antt =====
-- scheduler/model_selection.{h,cpp} and runtime/backends/backend_capabilities.{h,cpp}: the model that a
-- request runs on, by the features that it needs.
pub mod Defs
pub mod Ops
pub mod Scopes
pub mod Order
pub mod Fallback
pub mod Select
mod Tests
