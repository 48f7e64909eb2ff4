-- ===== src/Builder.antt =====
-- internal/builder: archives and manifests.
pub mod Cpio
pub mod Manifest
pub mod Contents
pub mod Pipeline
