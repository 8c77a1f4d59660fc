-- ===== src/Tests/Codecs.antt =====
-- The codecs at concrete frames, messages and identities.
use pc_unlock_project.Common.{
  ℕ, zero, suc, ◌≡◌, ◌<◌, refl, true, false, ◌++◌, [], ◌∷◌, none, some, Bytes, IsByte, All, take,
  arith, replicate, le_bytes, from_le, Bool, ltb, ◌&&◌,
}
use pc_unlock_project.Protocol.Types.{is_valid_message_type, byteswap}
use pc_unlock_project.Protocol.Frame.{
  serialize_frame_header, deserialize_frame_header, is_rejected_header,
}
use pc_unlock_project.Protocol.Frame.RoundTrip.{FitsHeader, serialize_frame_header-deserialize}
use pc_unlock_project.Protocol.SignedMessage.{
  serialize_signed_message, deserialize_signed_message, is_rejected_message,
}
use pc_unlock_project.Protocol.SignedMessage.Layout.{FitsMessage}
use pc_unlock_project.Protocol.SignedMessage.Codec.{serialize_signed_message-deserialize}
use pc_unlock_project.Text.Hex.{hex_value}
use pc_unlock_project.Tests.Samples.{request, answer}

All-bytes : (n b : ℕ) → b < 256 → All IsByte (replicate n b)
All-bytes zero b h = tt
All-bytes (suc n) b h = (h, All-bytes n b h)

are_bytes : Bytes → Bool
are_bytes [] = true
are_bytes (b ∷ bs) = ltb b 256 && are_bytes bs

by_evaluation : (bs : Bytes) → are_bytes bs ≡ true → All IsByte bs
unfolding are_bytes
by_evaluation [] h = tt
by_evaluation (b ∷ bs) h = (ground arith, by_evaluation bs (ground arith))

request-FitsHeader : FitsHeader request
request-FitsHeader = record {
  magic = omega arith;
  major_version = omega arith;
  minor_version = omega arith;
  message_type = omega arith;
  reserved = omega arith;
  message_id = omega arith;
  payload_length = omega arith;
  sequence_number = omega arith;
}

pub answer-FitsMessage : FitsMessage answer
answer-FitsMessage = record {
  protocol_version = omega arith;
  server_identity = refl;
  device_identity = refl;
  operation = omega arith;
  request_id = omega arith;
  session_id = omega arith;
  nonce = refl;
  timestamp = omega arith;
}

request_passes : is_rejected_header request ≡ false
unfolding is_valid_message_type
request_passes = refl

pub answer_passes : is_rejected_message answer ≡ false
unfolding is_valid_message_type
answer_passes = refl

request_wire : Bytes
request_wire =
    0x4D ∷ 0x55 ∷ 1 ∷ 0 ∷ 0 ∷ 0x20 ∷ 0 ∷ 0 ∷ 0 ∷ 0 ∷ 0 ∷ 9 ∷ 0 ∷ 0 ∷ 0 ∷ 0 ∷ replicate 8 0

request_wire-IsByte : All IsByte request_wire
unfolding request_wire are_bytes
request_wire-IsByte = by_evaluation request_wire refl

request_wire_read : deserialize_frame_header request_wire ≡ some request
unfolding deserialize_frame_header request_wire from_le le_bytes byteswap is_valid_message_type
request_wire_read = refl

serialize_frame_header-deserialize_example :
    (serialize_frame_header request ≡ take 24 request_wire)
    × FitsHeader request
    × (is_rejected_header request ≡ false)
serialize_frame_header-deserialize_example =
    serialize_frame_header-deserialize request_wire {h = request} request_wire-IsByte
      request_wire_read

answer_wire : Bytes
answer_wire =
    1 ∷ 0 ∷ replicate 16 0
    ++ (replicate 16 0x11
        ++ (0 ∷ 0x22 ∷ 0 ∷ 0 ∷ 0 ∷ 0 ∷ 0 ∷ 0 ∷ 0 ∷ 0 ∷ 0 ∷ 0 ∷ 0 ∷ 1 ∷ replicate 32 7
            ++ (0 ∷ 0 ∷ 0 ∷ 0 ∷ 0 ∷ 0 ∷ 3 ∷ 0xE8 ∷ [])))

answer_wire-IsByte : All IsByte answer_wire
unfolding answer_wire are_bytes
answer_wire-IsByte = by_evaluation answer_wire refl

answer_wire_read : deserialize_signed_message answer_wire ≡ some answer
unfolding deserialize_signed_message answer_wire from_le le_bytes byteswap is_valid_message_type
answer_wire_read = refl

serialize_signed_message-deserialize_example :
    (serialize_signed_message answer ≡ answer_wire)
    × FitsMessage answer
    × (is_rejected_message answer ≡ false)
serialize_signed_message-deserialize_example =
    serialize_signed_message-deserialize answer_wire {m = answer} answer_wire-IsByte
      answer_wire_read

no_digit : hex_value b'g' ≡ none
unfolding hex_value
no_digit = refl
