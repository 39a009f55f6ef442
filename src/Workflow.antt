-- ===== src/Workflow.antt =====
-- The durable workflow that processes a locked session (workflows/process_exam.py).
pub mod Program
pub mod Gates
pub mod Providers
pub mod Activities
pub mod ProcessExam
pub mod Performed
pub mod Guards
pub mod Gated
pub mod Driven
