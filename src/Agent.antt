-- ===== src/Agent.antt =====
-- agent/: tools and their registry, the loop between a model and its tools, thinking modes.
pub mod Tool
pub mod ToolRegistry
pub mod Runtime
pub mod StopPhrase
pub mod Thinking
