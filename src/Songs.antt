-- ===== src/Songs.antt =====
-- src/services/songs.service.js: the songs of an event, from request to Now Playing.
pub mod Metadata
pub mod Playback
pub mod Queue
pub mod Similarity
pub mod Suggestion
