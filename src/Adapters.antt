-- ===== src/Adapters.antt =====
-- The adapters over a transport, src/adapters.
pub mod Chunks
pub mod Types
pub mod Driver
pub mod Machines
pub mod Upload
pub mod Driven
pub mod FirstRound
pub mod Host
pub mod Laws
pub mod Cuts
pub mod Outcomes
pub mod FileEnds
pub mod Ends
pub mod Payload
pub mod Blocking
pub mod Serial
pub mod Tokio
pub mod AsyncLoop
pub mod Agreement
mod Runs
