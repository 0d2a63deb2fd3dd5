-- ===== src/Transfer.antt =====
-- The client of the file-transfer protocol: src/file_transfer.rs.
pub mod State
pub mod Compression
pub mod Operations
pub mod Invariant
pub mod Fits
pub mod Keeps
pub mod Sessions
pub mod Gates
pub mod Reach
pub mod Panics
pub mod Answers
pub mod Drain
pub mod Replies
pub mod Late
pub mod Online
pub mod Spec
pub mod Query
pub mod Diagram
pub mod Lifecycle
mod Runs
