-- ===== src/Registry.antt =====
-- windows/pairing/DeviceRegistry.cpp: the records of paired devices in the Windows registry.
pub mod Win32
pub mod Values
pub mod Records
pub mod Laws
pub mod RoundTrip
pub mod Writes
pub mod Views
pub mod Changes
pub mod Isolation
pub mod Enumeration
pub mod Clients
pub mod Revocation
