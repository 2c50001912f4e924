-- ===== src/Turns.antt =====
-- src/humanflow/turns: the signals and the policies of turn detection.
pub mod Normalize
pub mod Signals
pub mod Policies
pub mod Soundness
