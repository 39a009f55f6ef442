-- ===== src/Ocr.antt =====
-- The choice of an OCR provider (ocr/policy.py).
pub mod Breaker
pub mod Policy
pub mod Laws
pub mod Chain
