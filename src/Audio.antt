-- ===== src/Audio.antt =====
-- src/humanflow/audio: the audio types of the realtime core and the ledger of what was played.
pub mod Models
pub mod Ledger
pub mod Validity
pub mod Preservation
pub mod Finality
pub mod Cancellation
pub mod Views
pub mod Truth
pub mod Unheard
