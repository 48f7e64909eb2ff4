-- ===== src/Vsock.antt =====
-- internal/vsockd: the frames of the control protocol, and the server that answers them.
pub mod Frame
pub mod Protocol
pub mod Server
pub mod Connection
mod Tests
pub mod Transport
pub mod Listeners
