-- ===== src/Playback.antt =====
-- src/humanflow/web/transport.py: audio output that ends at the acknowledgements of a browser.
pub mod Pending
pub mod Browser
pub mod Answers
pub mod Writes
pub mod Branches
pub mod Promises
pub mod Silence
pub mod Epochs
pub mod Receipts
