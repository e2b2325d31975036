-- ===== src/Irq.antt =====
-- src/irq.c: which processor core handles which interrupt. The messages to the journal and the
-- table that `irq_status` prints are not modelled.
pub mod Config
pub mod Discover
pub mod Masks
pub mod Nodes
pub mod Apart
pub mod Restore
pub mod RestoreLists
pub mod Bind
pub mod Peripherals
pub mod Watch
pub mod Memory
pub mod Listed
pub mod Off
pub mod Exempt
pub mod Rounds
pub mod Reassert
pub mod Teardown
