-- ===== src/Daemon.antt =====
-- internal/daemon: the calls of a host, their slots, and the dialogs that ask the user.
pub mod Slots
pub mod Consent
pub mod Calls
pub mod Run
pub mod Pages
pub mod Version
pub mod NewRow
