-- ===== src/KarimSvcd.antt =====
-- cmd/karim-svcd/main.go: the supervisor program.
pub mod Store
pub mod Bridge
pub mod Main
pub mod Consistent
pub mod Starts
pub mod Replaced
pub mod Boot
mod Tests
