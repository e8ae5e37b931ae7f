-- ===== src/Witnesses.antt =====
-- Concrete runs: a small event with its people, songs and votes, and each theorem applied to it.
pub mod Samples
mod States
mod People
mod Joins
mod Voting
mod Playing
mod Moving
mod Cooldowns
mod Queues
mod Friendships
mod Hosting
mod Recognising
mod Matching
mod Locking
mod Claiming
mod Sounds
mod Signing
mod Suggesting
