-- ===== src/Tools.antt =====
-- internal/tools: the tool types, what they take of the runtime, and the registry.
pub mod Runtime
pub mod Base
pub mod Sample
pub mod Terminal
pub mod External
pub mod Http
pub mod Registry
pub mod Limits
