-- ===== src/Config.antt =====
-- The loader of the sandbox document: sandbox/config/loader.py. A raw mapping is a `Fields`.
pub mod Entry
pub mod Services
pub mod Section
pub mod Placeholders
pub mod Document
mod Tests
