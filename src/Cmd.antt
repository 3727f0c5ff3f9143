-- ===== src/Cmd.antt =====
-- cmd/: the daemon.
pub mod Daemon
