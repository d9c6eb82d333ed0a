-- ===== src/Tests.antt =====
-- The theorems at concrete inputs.
pub mod Toy
pub mod Issuing
pub mod Joining
pub mod Applications
pub mod Storing
pub mod Naming
pub mod Configuring
pub mod Snapshots
pub mod Opening
pub mod Admitting
