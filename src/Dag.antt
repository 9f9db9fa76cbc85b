-- ===== src/Dag.antt =====
-- internal/core/dag: the graph, its validation, and the executor that runs it.
pub mod Graph
pub mod Validate
pub mod Registry
pub mod Executor
pub mod Samples
