-- ===== src/Friends.antt =====
-- src/services/friends.service.js: friend requests, friendships and invitations to events.
pub mod Requests
pub mod Invites
pub mod Changes
pub mod Symmetry
pub mod Lifecycle
