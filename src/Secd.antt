-- ===== src/Secd.antt =====
-- internal/secd: the sandbox of a service.
pub mod Unix
pub mod Names
pub mod Seccomp
pub mod Capabilities
pub mod Policy
mod Tests
