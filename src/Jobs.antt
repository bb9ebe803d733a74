-- ===== src/Jobs.antt =====
-- The machinery under every build and run record: the status gate (src/services/job-status.ts) and
-- the registry that serialises the writes to a record (src/storage/registry.ts).
pub mod Status
pub mod Registry
pub mod Gate
pub mod Progress
