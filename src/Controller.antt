-- ===== src/Controller.antt =====
-- src/humanflow/controller/state_machine.py: the conversation's state machine.
-- `Machine` is the class with its methods, `Graph` the table of transitions.
pub mod Graph
pub mod Machine
pub mod Outcome
pub mod Log
pub mod Staleness
pub mod Reports
pub mod Replay
