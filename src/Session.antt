-- ===== src/Session.antt =====
-- The session and its state machine (domain/state_machine.py).
pub mod State
pub mod Transition
pub mod Paths
pub mod Laws
