-- ===== src/Runs.antt =====
-- src/services/runs.ts and src/services/migrations.ts: the life of a run record.
pub mod World
pub mod Abort
pub mod Writes
pub mod Restart
pub mod Background
pub mod Message
pub mod Ended
pub mod Queries
pub mod Resurrect
pub mod Timeout
pub mod Reconcile
