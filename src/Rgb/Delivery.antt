-- ===== src/Rgb/Delivery.antt =====
-- The delivery of a result to the firmware (rgb/delivery.py).
pub mod Binding
pub mod Result
pub mod Snapshot
pub mod Events
pub mod Cursor
pub mod Sequences
pub mod Progress
pub mod Untouched
