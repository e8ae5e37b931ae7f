-- ===== src/Recognition/Session.antt =====
-- src/services/audio-recognition/match-session.js: the state machine that follows one microphone.
pub mod State
pub mod Inputs
pub mod Shape
pub mod Reached
pub mod Locks
pub mod Feeding
