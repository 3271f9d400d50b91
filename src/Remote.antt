-- ===== src/Remote.antt =====
-- internal/remote: the answers of a remote host.
pub mod Sessions
pub mod Probe
