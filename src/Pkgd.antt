-- ===== src/Pkgd.antt =====
-- internal/pkgd: the unpacking of image layers.
pub mod Paths
pub mod OciSpec
pub mod Extract
pub mod Inspect
pub mod Layer
pub mod Merge
pub mod Confined
pub mod Touched
mod Parents
mod Tests
