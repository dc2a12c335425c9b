-- ===== src/Matchcrest.antt =====
-- The matchers of the assertions: matchcrest/matchers and matchcrest/utils.
pub mod Python
pub mod Url
pub mod Verdict
pub mod Values
pub mod Retry
pub mod Responses
pub mod Things
mod Tests
