-- ===== src/Protocol.antt =====
-- shared/protocol/ProtocolTypes.h and shared/protocol/SignedMessage.h: the wire format. The types
-- and the codecs stand in child modules, and so do their round trips.
pub mod Types
pub mod Frame
pub mod SignedMessage
pub mod PcStates
