-- ===== src/Auth.antt =====
-- windows/authentication: the challenges of the service and the check of a phone's answer.
pub mod Types
pub mod Limits
pub mod Request
pub mod Response
pub mod Sessions
pub mod Replay
pub mod Verdicts
pub mod Lockout
pub mod Handshake
pub mod Frames
