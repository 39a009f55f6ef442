-- ===== src/Camera.antt =====
-- The revisions of camera profiles (camera_profiles/).
pub mod Contract
pub mod Profiles
pub mod Revisions
pub mod Takeover
