-- ===== src/Bridge.antt =====
-- internal/bridge: the delays between reconnects (Backoff) and the supervisor of a tunnel.
pub mod Backoff
pub mod Supervisor
