-- ===== src/Safety.antt =====
-- ui/safety_signals.py: the trajectory engine of the customer conversation, and the part of
-- ui/server.py that screens a turn with it.
pub mod Signals
pub mod Names
pub mod State
pub mod Evaluate
pub mod Session
pub mod Rows
pub mod Verdict
pub mod Screen
mod Tests
