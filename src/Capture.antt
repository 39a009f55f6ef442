-- ===== src/Capture.antt =====
-- The capture of a session (capture/): what the gateway is told to do, and when capture ends.
pub mod Storage
pub mod Upload
pub mod Orphans
pub mod Outbox
pub mod Commands
pub mod Polling
pub mod Cursors
pub mod Lagging
pub mod EndDetection
