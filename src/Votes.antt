-- ===== src/Votes.antt =====
-- src/services/votes.service.js: votes on songs, the score that they give, and the ladder by which
-- the votes approve or reject a song.
pub mod Recount
pub mod Casting
