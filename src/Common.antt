-- ===== src/Common.antt =====
-- What every component of the backend uses: JSON values, and functions on the database session.
pub mod Value
pub mod Exec
