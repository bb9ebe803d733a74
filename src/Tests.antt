-- ===== src/Tests.antt =====
-- Concrete records of the program, and the theorems about it applied to them.
mod Data
mod Jobs
mod Runs
mod Charging
mod Storages
mod Queries
mod Webhooks
mod Schedules
mod Standby
mod Builds
