-- ===== src/Tts.antt =====
-- backend/internal/tts: reading messages aloud.
pub mod Parts
pub mod Station
pub mod Worker
pub mod Normalize
pub mod Hash
pub mod Enqueuer
