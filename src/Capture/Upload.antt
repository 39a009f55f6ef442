-- ===== src/Capture/Upload.antt =====
-- The upload of a frame.
pub mod Request
pub mod Rows
pub mod Flow
pub mod Keys
pub mod Service
