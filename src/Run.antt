-- ===== src/Run.antt =====
-- internal/domain/run and the configuration types of internal/domain/types.
pub mod Types
pub mod Builder
pub mod Machines
pub mod Presets
pub mod State
pub mod Validate
mod Samples
