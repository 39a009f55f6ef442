-- ===== src/Rgb/Commands.antt =====
-- The manual RGB commands of a device (rgb/device_commands.py).
pub mod Status
pub mod Lookup
pub mod Create
pub mod Stop
pub mod Events
pub mod Listing
pub mod Cases
pub mod Exclusion
pub mod Idempotency
pub mod Service
pub mod Lifecycle
