-- ===== src/Llm.antt =====
-- The calls of language models (llm/).
pub mod Fallback
pub mod Attempts
