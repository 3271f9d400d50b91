-- ===== src/Receiver.antt =====
-- internal/receiver: the lines that a host's bridge sends, its events, and its connections.
pub mod Lines
pub mod Events
pub mod Connection
