-- ===== src/Tools.antt =====
-- src/humanflow/tools: the bounded execution of tools over the conversation's state machine, and the
-- in-memory appointment tools.
pub mod Models
pub mod Calls
pub mod Executor
pub mod Returns
pub mod Steps
pub mod Attempts
pub mod Awaits
pub mod Finish
pub mod Outcome
pub mod Acceptance
pub mod Bookings
pub mod Places
pub mod Rebooking
pub mod Faults
