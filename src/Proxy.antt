-- ===== src/Proxy.antt =====
-- internal/proxy: the Mac-side pieces of the agtermctl proxy.
mod Tests
pub mod Schema
pub mod Tree
pub mod Leaf
pub mod Authz
pub mod Normalise
pub mod Targets
pub mod Scopes
pub mod Policy
pub mod Argv
pub mod Typed
pub mod Call
pub mod Wire
pub mod Frames
pub mod Rewrite
pub mod Prepare
