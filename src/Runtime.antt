-- ===== src/Runtime.antt =====
-- src/humanflow/runtime: signals of the speaker while the agent is heard.
pub mod BargeIn
pub mod Cycles
pub mod Grammar
