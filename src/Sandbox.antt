-- ===== src/Sandbox.antt =====
-- The session runtime of the sandbox: sandbox/.
pub mod Operation
pub mod Engine
pub mod Startup
pub mod Session
pub mod Lifecycle
pub mod Refs
pub mod Presets
mod Tests
