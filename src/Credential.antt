-- ===== src/Credential.antt =====
-- windows/credential_provider: the tile on the logon screen and its provider.
pub mod Codes
pub mod Tile
pub mod Provider
pub mod Offers
pub mod Forms
pub mod Probe
