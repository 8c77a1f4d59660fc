-- ===== src/Protocol/Types.antt =====
-- shared/protocol/ProtocolTypes.h: constants, opcodes, and the byte order of the wire. The host
-- is little-endian, as every Windows target of the build is.
use pc_unlock_project.Common.{
  ℕ, ◌≡◌, ◌<◌, ◌^◌, Bool, false, ◌||◌, ◌==◌, List, [], ◌∷◌, reverse, length, length-reverse,
  length-le_bytes, le_bytes, from_le, le_bytes-IsByte, le_bytes-from_le, from_le-le_bytes,
  All-reverse, from_le-lt, ◌∙◌,
}
use mathlib.Core.List.{reverse-reverse}

abbrev pub protocol_magic : ℕ
protocol_magic = 0x4D55

abbrev pub protocol_major_version : ℕ
protocol_major_version = 1

abbrev pub protocol_minor_version : ℕ
protocol_minor_version = 0

abbrev pub max_payload_size : ℕ
max_payload_size = 4096

abbrev pub frame_header_size : ℕ
frame_header_size = 24

abbrev pub canonical_signed_message_size : ℕ
canonical_signed_message_size = 88

pub data MessageType : Type 0 where
  unknown discover discovery_response pair_request pair_response pair_confirm : MessageType
  pair_complete auth_request auth_challenge auth_response auth_success auth_failure : MessageType
  lock_request lock_response status_request status_response : MessageType
  unpair_request unpair_response ping pong proto_error : MessageType

-- `static_cast<uint16_t>`
abbrev pub opcode : MessageType → ℕ
opcode unknown = 0x0000
opcode discover = 0x0001
opcode discovery_response = 0x0002
opcode pair_request = 0x0010
opcode pair_response = 0x0011
opcode pair_confirm = 0x0012
opcode pair_complete = 0x0013
opcode auth_request = 0x0020
opcode auth_challenge = 0x0021
opcode auth_response = 0x0022
opcode auth_success = 0x0023
opcode auth_failure = 0x0024
opcode lock_request = 0x0030
opcode lock_response = 0x0031
opcode status_request = 0x0040
opcode status_response = 0x0041
opcode unpair_request = 0x0050
opcode unpair_response = 0x0051
opcode ping = 0x00E0
opcode pong = 0x00E1
opcode proto_error = 0x00FF

-- The labels of the `switch`.
abbrev known_types : List MessageType
known_types =
    discover ∷ discovery_response ∷ pair_request ∷ pair_response ∷ pair_confirm ∷ pair_complete
    ∷ auth_request ∷ auth_challenge ∷ auth_response ∷ auth_success ∷ auth_failure ∷ lock_request
    ∷ lock_response ∷ status_request ∷ status_response ∷ unpair_request ∷ unpair_response ∷ ping
    ∷ pong ∷ proto_error ∷ []

abbrev matches : ℕ → List MessageType → Bool
matches n [] = false
matches n (t ∷ ts) = opcode t == n || matches n ts

unfoldable pub is_valid_message_type : ℕ → Bool
is_valid_message_type n = matches n known_types

-- The compiler's byte swap of a `k`-byte integer: the bytes in memory, the other way round.
unfoldable pub byteswap : ℕ → ℕ → ℕ
byteswap k v = from_le (reverse (le_bytes k v))

abbrev pub host_to_network16 : ℕ → ℕ
host_to_network16 = byteswap 2

abbrev pub host_to_network32 : ℕ → ℕ
host_to_network32 = byteswap 4

abbrev pub host_to_network64 : ℕ → ℕ
host_to_network64 = byteswap 8

abbrev pub network_to_host16 : ℕ → ℕ
network_to_host16 = host_to_network16

abbrev pub network_to_host32 : ℕ → ℕ
network_to_host32 = host_to_network32

abbrev pub network_to_host64 : ℕ → ℕ
network_to_host64 = host_to_network64

-- What the memory of a swapped integer holds: the bytes of the integer, highest first.
pub le_bytes-byteswap : (k v : ℕ) → le_bytes k (byteswap k v) ≡ reverse (le_bytes k v)
unfolding byteswap
le_bytes-byteswap k v =
    let bs = reverse (le_bytes k v) in
    let n : length bs ≡ k = length-reverse (le_bytes k v) ∙ length-le_bytes k v in
    rw n at (le_bytes-from_le bs (All-reverse (le_bytes k v) (le_bytes-IsByte k v)))

pub byteswap-byteswap : (k v : ℕ) → v < 256 ^ k → byteswap k (byteswap k v) ≡ v
unfolding byteswap
byteswap-byteswap k v h = rw (le_bytes-byteswap k v, reverse-reverse) (from_le-le_bytes k v h)

pub byteswap-lt : (k v : ℕ) → byteswap k v < 256 ^ k
unfolding byteswap
byteswap-lt k v =
    let n : length (reverse (le_bytes k v)) ≡ k =
      length-reverse (le_bytes k v) ∙ length-le_bytes k v in
    rw n at (from_le-lt (reverse (le_bytes k v)) (All-reverse _ (le_bytes-IsByte k v)))
