-- ===== src/Network/Stream.antt =====
-- windows/network/NetworkEngine.cpp: the loop of `ClientWorkerLoop` that takes the frames out of the
-- received bytes.
pub mod Turns
pub mod Chunks
pub mod Sending
use pc_unlock_project.Common.{
  ℕ, zero, suc, ◌+◌, Bool, true, false, ltb, if◌then◌else◌, List, [], ◌∷◌, ◌++◌, Option, none, some,
  Bytes, length, take, drop,
}
use pc_unlock_project.Protocol.Types.{frame_header_size, max_payload_size}
use pc_unlock_project.Protocol.Frame.{FrameHeader, deserialize_frame_header, serialize_frame_header}

abbrev pub Frame : Type 0
Frame = FrameHeader × Bytes

-- The frames for the callback, the bytes that stay in ReceiveBuffer, and whether the socket stays.
pub record Received : Type 0 where
  pub frames : List Frame
  pub buffer : Bytes
  pub is_open : Bool

abbrev pub waits : Bytes → Received
waits bytes = record { frames = []; buffer = bytes; is_open = true }

abbrev pub drops : Bytes → Received
drops bytes = record { frames = []; buffer = bytes; is_open = false }

abbrev pub before : Frame → Received → Received
before f r = record r { frames = f ∷ r.frames }

abbrev pub total_message_len : FrameHeader → ℕ
total_message_len h = frame_header_size + h.payload_length

-- The inner loop. Each turn but the last removes 24 bytes or more, so the length of the bytes is
-- enough fuel.
unfoldable pub drain : ℕ → Bytes → Received
drain zero bytes = waits bytes
drain (suc fuel) bytes =
    if ltb (length bytes) frame_header_size
    then waits bytes
    else elim (deserialize_frame_header bytes) [
      | none ↦ drops bytes
      | some h ↦
          let rest = drain fuel (drop (total_message_len h) bytes) in
          if ltb max_payload_size h.payload_length
          then drops bytes
          else if ltb (length bytes) (total_message_len h)
          then waits bytes
          else before (h, take h.payload_length (drop frame_header_size bytes)) rest
    ]

-- What a chunk adds to an active connection, with the bytes in its buffer. The chunk is what was read
-- from the socket, decrypted if TLS is up; it is empty if the decryption fails.
unfoldable pub receive : Bytes → Bytes → Received
receive buffer chunk = drain (length (buffer ++ chunk)) (buffer ++ chunk)

-- SendFrame: the bytes of a frame.
unfoldable pub frame_bytes : Frame → Bytes
frame_bytes (h, payload) = serialize_frame_header h ++ payload
