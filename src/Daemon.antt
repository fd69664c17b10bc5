-- ===== src/Daemon.antt =====
-- The daemon's own logic: crates/adb-daemon/src/main.rs.
pub mod Tree
