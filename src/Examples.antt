-- ===== src/Examples.antt =====
-- The theorems at concrete inputs, and runs of the definitions.
mod Controller
mod Supervisor
mod Temporal
mod Tools
mod Audio
mod Turns
mod Engineering
mod Playback
mod Runtime
