-- ===== src/Store.antt =====
-- The stores of src/store.
pub mod Lease
pub mod Publications
pub mod Work
pub mod Supersede
pub mod PullRequests
pub mod Ingest
pub mod Fixtures
