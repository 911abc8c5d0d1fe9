-- ===== src/Llm.antt =====
-- The guards around calls of a model or of the compression sidecar (llm/).
pub mod Breaker
