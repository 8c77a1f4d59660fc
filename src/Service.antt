-- ===== src/Service.antt =====
-- windows/service/MobileUnlockService.cpp: the dispatch of frames from phones and of messages from the
-- agent in the user's session.
pub mod State
pub mod Devices
pub mod Frames
pub mod Messages
pub mod Lifecycle
pub mod Authority
pub mod Sessions
pub mod Relay
pub mod Races
pub mod Locking
pub mod Dispatch
