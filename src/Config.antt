-- ===== src/Config.antt =====
-- src/config: the configuration that the command line and the environment give.
pub mod Startup
pub mod Flags
pub mod Tests
