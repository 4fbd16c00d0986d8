-- ===== src/Engine/Pipeline.antt =====
-- internal/engine/pipeline.go: `RunPipeline`.
pub mod Admit
pub mod Receive
pub mod Loop
pub mod Terminates
pub mod Phases
pub mod Order
pub mod Receipt
pub mod Cover
pub mod Progress
pub mod Wiring
pub mod Abandon
