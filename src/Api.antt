-- ===== src/Api.antt =====
-- The HTTP client of the tests: api/api.py, api/auth.py, api/endpoint.py, api/response.py and
-- api/asserts.
pub mod Web
pub mod Paths
pub mod Client
pub mod Wrapper
pub mod Auth
pub mod Endpoint
pub mod Contexts
pub mod Expect
pub mod Field
mod Tests
