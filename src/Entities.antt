-- ===== src/Entities.antt =====
-- src/storage/entities.ts: the records that the registries hold. `U` is the type of the fractional
-- JavaScript numbers (amounts in USD, sampled figures), a parameter of the model; whole numbers are
-- ℕ, and an ISO timestamp is its milliseconds since the epoch, which it orders like.
pub mod Pricing
pub mod Run
pub mod Build
pub mod Storage
pub mod Webhook
pub mod Actor
pub mod Schedule
