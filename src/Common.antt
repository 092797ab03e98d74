-- ===== src/Common.antt =====
-- src/common: the settings and the logs.
pub mod Settings
pub mod Logging
