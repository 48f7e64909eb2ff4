-- ===== src/Svcd.antt =====
-- internal/svcd: the supervisor of the services.
pub mod Spec
pub mod Graph
pub mod Supervisor
pub mod Bundle
pub mod Config
pub mod CGroup
mod Tests
