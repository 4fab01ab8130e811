-- ===== src/Kernel.antt =====
-- The kernel's durable tables and the stores over them, under src/kernel.
pub mod Db
pub mod Deliveries
pub mod Instances
pub mod Events
pub mod Waits
pub mod Consume
pub mod Jobs
pub mod Claims
pub mod Results
pub mod Handoff
pub mod History
mod Tests
pub mod Invariant
