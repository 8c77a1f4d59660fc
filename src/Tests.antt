-- ===== src/Tests.antt =====
-- Concrete inputs for the theorems: sample data, and the theorems applied to them.
pub mod Samples
pub mod KeyStore
mod AuthRuns
mod Codecs
mod Pins
mod Pairings
mod Logons
mod Keys
mod Networks
mod Services
mod Registries
mod Discoveries
mod Settings
mod Tiles
mod Pipes
