-- ===== src/Telemetry.antt =====
-- src/humanflow/telemetry: the event envelope. `Payload` has the values and their redaction.
pub mod Payload
pub mod Event
pub mod Redaction
