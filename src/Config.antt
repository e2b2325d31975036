-- ===== src/Config.antt =====
-- src/daemon/config.c.
pub mod Fields
pub mod Update
pub mod Load
pub mod RoundTrip
pub mod Generate
