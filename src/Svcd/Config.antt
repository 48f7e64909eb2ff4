-- ===== src/Svcd/Config.antt =====
-- internal/svcd/config.go: the reader of service files, its values, its lines and its two entries.
pub mod Values
pub mod Lines
pub mod Reader
pub mod Accepted
mod Tests
