-- ===== src/Examples.antt =====
-- The programs under examples/ of the repository.
pub mod Arguments
pub mod Upload
pub mod Settings
pub mod Delivery
pub mod Inspect
pub mod Listing
pub mod Placed
mod Runs
