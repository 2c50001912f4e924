-- ===== src/Temporal.antt =====
-- src/humanflow/runtime/temporal.py: the dates that German expressions of time name.
pub mod Calendar
pub mod Ordinals
pub mod Shifts
pub mod Order
pub mod Scan
pub mod Placing
pub mod Resolver
pub mod Annual
pub mod Weekdays
pub mod Lies
pub mod Coming
pub mod Placement
pub mod Unique
pub mod Resolution
