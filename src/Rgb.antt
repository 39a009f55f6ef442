-- ===== src/Rgb.antt =====
-- The RGB result channel (rgb/).
pub mod Schemas
pub mod Policy
pub mod Answers
pub mod Canonical
pub mod Overrides
pub mod Packing
pub mod Commands
pub mod Delivery
pub mod Publisher
pub mod Publish
pub mod Published
pub mod Revisions
