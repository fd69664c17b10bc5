-- ===== src/Transfer.antt =====
-- The transfer engine: crates/transfer-engine/src.
pub mod Job
pub mod Queue
pub mod Worker
