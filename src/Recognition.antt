-- ===== src/Recognition.antt =====
-- src/services/audio-recognition: from the hashes of a microphone to the track that plays.
pub mod Thresholds
pub mod Numbers
pub mod Linker
pub mod Session
pub mod Registry
pub mod Codec
pub mod Matcher
pub mod Wav
