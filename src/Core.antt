-- ===== src/Core.antt =====
-- The synchronous core, crates/omnimodem/src/core: the worker that puts a channel's frames on the
-- air.
pub mod Event
pub mod Error
pub mod Live
pub mod Audio
pub mod Configure
pub mod Spawn
pub mod Transmit
pub mod Hotplug
pub mod Command
pub mod Worker
mod Tests
