-- ===== src/Participants.antt =====
-- src/services/participants.service.js: joining and leaving an event, moderation, and the checks
-- that an attendee passes before acting. `now` is the clock's reading during a call.
pub mod Access
pub mod Text
pub mod Moderation
pub mod Joining
pub mod Admission
pub mod Profile
pub mod Sessions
pub use Access.*
