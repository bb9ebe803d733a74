-- ===== src/Standby.antt =====
-- Standby: the pool of runs that serve a standby address (src/services/standby.ts) and its settings
-- (src/services/standby-config.ts).
pub mod Pool
pub mod Finish
pub mod Config
