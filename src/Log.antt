-- ===== src/Log.antt =====
-- src/bas/log: the logger.
pub mod Logger
