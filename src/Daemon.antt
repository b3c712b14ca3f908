-- ===== src/Daemon.antt =====
-- client/aimless/daemon.py: the connection to the daemon.
pub mod Session
pub mod Request
pub mod Client
