-- ===== src/Metrics.antt =====
-- internal/domain/metrics: the comparison of the metrics of two runs.
pub mod Compare
mod Samples
