-- ===== src/Session.antt =====
-- Layer 2, src/session.rs: the sans-I/O session.
pub mod State
pub mod Lines
pub mod Operations
pub mod Build
pub mod Valid
pub mod Keeps
pub mod Chunks
pub mod Calls
pub mod Reach
pub mod Fifo
pub mod Replies
pub mod Timers
pub mod Synced
pub mod Handshake
mod Runs
