-- ===== src/Journal.antt =====
-- src/error.c: the messages of the journal, and the warnings that are kept for later.
pub mod Deferred
pub mod Kept
pub mod Registry
pub mod Texts
