-- ===== src/Protocol/SignedMessage.antt =====
-- shared/protocol/SignedMessage.h: the canonical 88-byte message that a phone signs.
pub mod Layout
pub mod Codec
use pc_unlock_project.Common.{
  ℕ, ◌≡◌, Bool, not, ◌||◌, ◌==◌, if◌then◌else◌, ◌++◌, Option, none, some, Bytes, length, take, drop,
  le_bytes, from_le, replicate,
}
use pc_unlock_project.Protocol.Types.{
  canonical_signed_message_size, is_valid_message_type, host_to_network16, host_to_network32,
  host_to_network64, network_to_host16, network_to_host32, network_to_host64,
}

pub record SignedMessage : Type 0 where
  pub protocol_version : ℕ  -- uint16_t
  pub server_identity : Bytes  -- uint8_t[16]
  pub device_identity : Bytes  -- uint8_t[16]
  pub operation : ℕ  -- uint16_t
  pub request_id : ℕ  -- uint32_t
  pub session_id : ℕ  -- uint64_t
  pub nonce : Bytes  -- uint8_t[32]
  pub timestamp : ℕ  -- uint64_t

-- The constructor.
abbrev pub default_message : SignedMessage
default_message = record {
  protocol_version = 0x0100;
  server_identity = replicate 16 0;
  device_identity = replicate 16 0;
  operation = 0;
  request_id = 0;
  session_id = 0;
  nonce = replicate 32 0;
  timestamp = 0;
}

-- The packed struct in memory.
pub message_memory : SignedMessage → Bytes
message_memory m =
    le_bytes 2 m.protocol_version
    ++ (m.server_identity
        ++ (m.device_identity
            ++ (le_bytes 2 m.operation
                ++ (le_bytes 4 m.request_id
                    ++ (le_bytes 8 m.session_id ++ (m.nonce ++ le_bytes 8 m.timestamp))))))

pub message_of_memory : Bytes → SignedMessage
message_of_memory bs = record {
  protocol_version = from_le (take 2 bs);
  server_identity = take 16 (drop 2 bs);
  device_identity = take 16 (drop 18 bs);
  operation = from_le (take 2 (drop 34 bs));
  request_id = from_le (take 4 (drop 36 bs));
  session_id = from_le (take 8 (drop 40 bs));
  nonce = take 32 (drop 48 bs);
  timestamp = from_le (take 8 (drop 80 bs));
}

net_message : SignedMessage → SignedMessage
net_message m = record m {
  protocol_version = host_to_network16 m.protocol_version;
  operation = host_to_network16 m.operation;
  request_id = host_to_network32 m.request_id;
  session_id = host_to_network64 m.session_id;
  timestamp = host_to_network64 m.timestamp;
}

host_message : SignedMessage → SignedMessage
host_message m = record m {
  protocol_version = network_to_host16 m.protocol_version;
  operation = network_to_host16 m.operation;
  request_id = network_to_host32 m.request_id;
  session_id = network_to_host64 m.session_id;
  timestamp = network_to_host64 m.timestamp;
}

unfoldable pub serialize_signed_message : SignedMessage → Bytes
unfolding message_memory net_message
serialize_signed_message m = message_memory (net_message m)

-- The test that rejects a message.
abbrev pub is_rejected_message : SignedMessage → Bool
is_rejected_message m =
    not (m.protocol_version == 0x0100) || not (is_valid_message_type m.operation)

-- `ParseResult<SignedMessage>` as an option. A null pointer comes with length 0.
unfoldable pub deserialize_signed_message : Bytes → Option SignedMessage
unfolding message_of_memory host_message
deserialize_signed_message bs =
    if not (length bs == canonical_signed_message_size)
    then none
    else let m = host_message (message_of_memory bs) in
      if is_rejected_message m then none else some m
