-- ===== src/Protocol/Frame.antt =====
-- shared/protocol/ProtocolTypes.h: the 24-byte frame header and its codec.
pub mod RoundTrip
pub mod Magic
use pc_unlock_project.Common.{
  ℕ, ◌≡◌, ◌≤◌, ◌<◌, ◌^◌, Bool, true, false, not, ◌||◌, ltb, ◌==◌, if◌then◌else◌, List, [], ◌∷◌,
  ◌++◌, Option, none, some, Bytes, length, take, drop, le_bytes, from_le,
}
use pc_unlock_project.Protocol.Types.{
  protocol_magic, protocol_major_version, protocol_minor_version, max_payload_size,
  frame_header_size, is_valid_message_type, byteswap, host_to_network16, host_to_network32,
  host_to_network64, network_to_host16, network_to_host32, network_to_host64,
}

pub record FrameHeader : Type 0 where
  pub magic : ℕ  -- uint16_t
  pub major_version : ℕ  -- uint8_t
  pub minor_version : ℕ  -- uint8_t
  pub message_type : ℕ  -- uint16_t
  pub reserved : ℕ  -- uint16_t
  pub message_id : ℕ  -- uint32_t
  pub payload_length : ℕ  -- uint32_t
  pub sequence_number : ℕ  -- uint64_t

-- The constructor.
abbrev pub default_header : FrameHeader
default_header = record {
  magic = protocol_magic;
  major_version = protocol_major_version;
  minor_version = protocol_minor_version;
  message_type = 0;
  reserved = 0;
  message_id = 0;
  payload_length = 0;
  sequence_number = 0;
}

-- The packed struct in memory.
header_memory : FrameHeader → Bytes
header_memory h =
    le_bytes 2 h.magic
    ++ (le_bytes 1 h.major_version
        ++ (le_bytes 1 h.minor_version
            ++ (le_bytes 2 h.message_type
                ++ (le_bytes 2 h.reserved
                    ++ (le_bytes 4 h.message_id
                        ++ (le_bytes 4 h.payload_length ++ le_bytes 8 h.sequence_number))))))

-- The member of `n` bytes at offset `i`.
abbrev member : ℕ → ℕ → Bytes → ℕ
member i n bs = from_le (take n (drop i bs))

header_of_memory : Bytes → FrameHeader
header_of_memory bs = record {
  magic = member 0 2 bs;
  major_version = member 2 1 bs;
  minor_version = member 3 1 bs;
  message_type = member 4 2 bs;
  reserved = member 6 2 bs;
  message_id = member 8 4 bs;
  payload_length = member 12 4 bs;
  sequence_number = member 16 8 bs;
}

net_header : FrameHeader → FrameHeader
net_header h = record {
  magic = host_to_network16 h.magic;
  major_version = h.major_version;
  minor_version = h.minor_version;
  message_type = host_to_network16 h.message_type;
  reserved = host_to_network16 h.reserved;
  message_id = host_to_network32 h.message_id;
  payload_length = host_to_network32 h.payload_length;
  sequence_number = host_to_network64 h.sequence_number;
}

host_header : FrameHeader → FrameHeader
host_header n = record {
  magic = network_to_host16 n.magic;
  major_version = n.major_version;
  minor_version = n.minor_version;
  message_type = network_to_host16 n.message_type;
  reserved = network_to_host16 n.reserved;
  message_id = network_to_host32 n.message_id;
  payload_length = network_to_host32 n.payload_length;
  sequence_number = network_to_host64 n.sequence_number;
}

unfoldable pub serialize_frame_header : FrameHeader → Bytes
unfolding header_memory net_header
serialize_frame_header h = header_memory (net_header h)

-- The test that rejects a header.
abbrev pub is_rejected_header : FrameHeader → Bool
is_rejected_header h =
    not (h.magic == protocol_magic)
    || (not (h.major_version == protocol_major_version)
        || (ltb max_payload_size h.payload_length || not (is_valid_message_type h.message_type)))

-- `ParseResult<FrameHeader>` as an option. A null pointer comes with length 0.
unfoldable pub deserialize_frame_header : Bytes → Option FrameHeader
unfolding header_of_memory host_header
deserialize_frame_header bs =
    if ltb (length bs) frame_header_size
    then none
    else let h = host_header (header_of_memory (take frame_header_size bs)) in
      if is_rejected_header h then none else some h
