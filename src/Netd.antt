-- ===== src/Netd.antt =====
-- internal/netd/netd.go: the network of the guest.
pub mod Message
pub mod Socket
pub mod Configure
pub mod Attributes
pub mod Requests
mod Tests
