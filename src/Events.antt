-- ===== src/Events.antt =====
-- src/services/events.service.js and src/utils/code-generator.js: the life of an event, its codes,
-- its members and the link for a phone microphone.
pub mod Codes
pub mod Lifecycle
pub mod Microphone
pub mod Ownership
