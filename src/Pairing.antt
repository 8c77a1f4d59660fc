-- ===== src/Pairing.antt =====
-- windows/pairing: device identities, PINs, the device registry and the pairing sessions.
pub mod Identity
pub mod SasPin
pub mod Record
pub mod Messages
pub mod Manager
