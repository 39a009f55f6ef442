-- ===== src/Gateway.antt =====
-- The routes of the capturing gateway (apps/api/routers/gateway.py).
pub mod Binding
pub mod EndSignal
pub mod Captures
