-- ===== src/Reconstruction.antt =====
-- The reconstruction of questions (reconstruction/).
pub mod Questions
pub mod Validators
