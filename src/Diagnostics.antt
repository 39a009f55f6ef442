-- ===== src/Diagnostics.antt =====
-- The diagnostics of a camera (camera_diagnostics/).
pub mod Limits
pub mod Lifecycle
pub mod Exclusive
pub mod Frames
