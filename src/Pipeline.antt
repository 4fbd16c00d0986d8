-- ===== src/Pipeline.antt =====
-- internal/pipeline: templates, their resolution, router conditions and the dependency graph.
pub mod Error
pub mod Template
pub mod Resolve
pub mod Condition
pub mod Graph
