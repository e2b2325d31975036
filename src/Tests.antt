-- ===== src/Tests.antt =====
-- The theorems at concrete inputs.
mod Library
mod Settings
mod Serving
mod Commands
mod Line
mod Report
mod Games
mod Interrupts
