-- ===== src/Log.antt =====
-- Reading the captured output: src/sub.rs, and the line helpers of src/control.rs.
pub mod Utf8
pub mod Slice
pub mod Lines
pub mod Grep
