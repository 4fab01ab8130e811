-- ===== src/Remote.antt =====
-- The remote lane of src/remote.
pub mod Runner
