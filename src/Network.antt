-- ===== src/Network.antt =====
-- windows/network: connections of phones.
pub mod Stream
pub mod Attempts
pub mod Clients
