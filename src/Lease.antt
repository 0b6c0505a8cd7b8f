-- ===== src/Lease.antt =====
-- ui/session_lock.py: the lease that serializes the turns of a session, and the turns that were
-- turned away and wait to be counted. An instant is a number of microseconds.
pub mod Backend
pub mod Memory
pub mod Firestore
pub mod Runs
pub mod Accounting
pub mod Service
pub mod Acquire
mod Tests
pub mod Progress
pub mod Refines
