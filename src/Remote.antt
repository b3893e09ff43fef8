-- ===== src/Remote.antt =====
-- src/remote.rs: driving a babysit on another host over SSH.
pub mod Progress
pub mod Quote
pub mod Args
pub mod Attach
pub mod Bridge
