-- ===== src/Pairing/Manager.antt =====
-- windows/pairing/PairingManager.cpp: the pairing sessions.
pub mod State
pub mod Request
pub mod Confirm
pub mod Calls
pub mod Attempts
pub mod Pins
pub mod Invariant
