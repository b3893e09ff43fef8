-- ===== src/Worker.antt =====
-- src/run.rs: the worker, which supervises the command of a session.
pub mod Terminate
pub mod Serve
