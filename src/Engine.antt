-- ===== src/Engine.antt =====
-- internal/engine: the engine that runs agents and pipelines, and the pool of workers.
pub mod Defs
pub mod Messages
pub mod Tools
pub mod Agent
pub mod Pipeline
pub mod Worker
