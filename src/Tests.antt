-- ===== src/Tests.antt =====
-- Sample rows, and each theorem applied to them.
mod Data
mod Sessions
mod Results
mod Devices
mod Gateway
mod Uploads
mod Services
mod Diagnostics
mod Questions
mod Worker
