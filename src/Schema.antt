-- ===== src/Schema.antt =====
-- internal/schema: the JSON Schema subset that checks an agent's structured output.
pub mod Defs
pub mod Compile
pub mod Validate
