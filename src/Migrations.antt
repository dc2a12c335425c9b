-- ===== src/Migrations.antt =====
-- The SQL migrations: sandbox/migrations.
pub mod Filename
pub mod Annotation
pub mod Sections
pub mod Statements
pub mod Parse
pub mod Folder
pub mod Url
pub mod Apply
mod Tests
