-- ===== src/Socket.antt =====
-- src/socket.c: `socket_handle`, by which the daemon serves one request.
pub mod Commands
pub mod Number
pub mod State
pub mod Modes
pub mod Tuning
pub mod Settings
pub mod Advanced
pub mod Handle
pub mod Dispatch
pub mod Invariant
pub mod Setup
