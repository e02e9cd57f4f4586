-- ===== src/Config.antt =====
-- src/config.c: the settings, their defaults, the reader of the configuration file and the check of
-- the settings that it gives.
pub mod Types
pub mod Policy
pub mod Path
pub mod Defaults
pub mod Toml
pub mod Apply
pub mod Load
pub mod Validate
mod Tests
