-- ===== src/Auth/Frames.antt =====
-- The frames of the answers: what the manager sends is accepted by the parser of frame headers.
use pc_unlock_project.Common.{
  ◌^◌, ◌≤◌, ◌<◌, ◌≡◌, false, ◌++◌, some, Bytes, length, arith, length-append,
}
use pc_unlock_project.Protocol.Types.{is_valid_message_type}
use pc_unlock_project.Protocol.Frame.{
  FrameHeader, serialize_frame_header, deserialize_frame_header, is_rejected_header,
}
use pc_unlock_project.Protocol.Frame.RoundTrip.{FitsHeader, deserialize_frame_header-serialize}
use pc_unlock_project.Text.Hex.{length-bytes_to_hex}
use pc_unlock_project.Text.Decimal.{length-decimal}
use pc_unlock_project.Auth.Types.{ActiveChallenge}
use pc_unlock_project.Auth.Request.{challenge_header, challenge_payload}

-- Text, two decimal numbers and 96 hexadecimal digits.
length-challenge_payload :
    (server_identity : Bytes) (c : ActiveChallenge)
    → length server_identity ≡ 16
    → length c.nonce ≡ 32
    → length (challenge_payload server_identity c) ≤ 220
unfolding challenge_payload
length-challenge_payload server_identity c n k = simp length-append (
    omega (
      arith,
      n,
      k,
      length-bytes_to_hex c.nonce,
      length-bytes_to_hex server_identity,
      length-decimal c.session_id,
      length-decimal c.created_at_ms,
    ))

challenge_header-FitsHeader :
    (request : FrameHeader) (payload : Bytes)
    → request.message_id < 2 ^ 32
    → FitsHeader (challenge_header request payload)
unfolding challenge_header
challenge_header-FitsHeader request payload h = record {
  magic = omega arith;
  major_version = omega arith;
  minor_version = omega arith;
  message_type = omega arith;
  reserved = omega arith;
  message_id = omega (arith, h);
  payload_length = omega arith;
  sequence_number = omega arith;
}

challenge_header-accepted :
    (request : FrameHeader) (payload : Bytes)
    → length payload ≤ 4096
    → is_rejected_header (challenge_header request payload) ≡ false
unfolding challenge_header is_valid_message_type
challenge_header-accepted request payload h = ground arith

-- The header of a challenge is read back by the peer as it was sent, whatever follows it, and the
-- payload length in it is the length of the payload.
challenge_frame-accepted :
    (request : FrameHeader) (server_identity : Bytes) (c : ActiveChallenge) (rest : Bytes)
    → request.message_id < 2 ^ 32
    → length server_identity ≡ 16
    → length c.nonce ≡ 32
    → let payload = challenge_payload server_identity c in
      let header = challenge_header request payload in
      (deserialize_frame_header (serialize_frame_header header ++ rest) ≡ some header)
      × (header.payload_length ≡ length payload)
unfolding challenge_header
challenge_frame-accepted request server_identity c rest h n k =
    let payload = challenge_payload server_identity c in
    let size = length-challenge_payload server_identity c n k in
    (
      deserialize_frame_header-serialize (challenge_header request payload) rest
          (challenge_header-FitsHeader request payload h)
          (challenge_header-accepted request payload (omega (arith, size))),
      omega (arith, size),
    )
