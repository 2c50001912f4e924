-- ===== src/Engineering.antt =====
-- src/humanflow/engineering: the registry of engineering tasks and the planning of workers.
pub mod Tasks
pub mod Registry
pub mod Steps
pub mod Calls
pub mod Authority
pub mod Invariant
pub mod Governance
pub mod Entries
pub mod Scheduler
pub mod Plans
pub mod Breaker
pub mod Supervisor
pub mod Repeats
pub mod Stops
pub mod Limits
