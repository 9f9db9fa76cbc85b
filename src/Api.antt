-- ===== src/Api.antt =====
-- internal/domain/api: the HTTP server.
pub mod Access
pub mod Runs
pub mod Hub
pub mod Recover
pub mod Start
mod Samples
