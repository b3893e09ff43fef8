-- ===== src/Tests.antt =====
-- The theorems at concrete inputs.
mod Output
mod Typing
mod Supervision
mod Clients
mod Texts
mod Attached
mod Listed
mod Reading
mod Launching
mod Records
