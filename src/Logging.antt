-- ===== src/Logging.antt =====
-- modules/logging: the loggers and their manager. spdlog and the JSON library are arguments.
pub mod Logger
pub mod Manager
pub mod Tests
