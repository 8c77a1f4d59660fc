-- ===== src/Network/Stream/Sending.antt =====
-- windows/network/NetworkEngine.cpp: what `SendFrame` sends, the loop receives.
use pc_unlock_project.Common.{◌≡◌, false, List, [], ◌∷◌, ◌++◌, Bytes, length}
use pc_unlock_project.Protocol.Frame.{FrameHeader, serialize_frame_header, is_rejected_header}
use pc_unlock_project.Protocol.Frame.RoundTrip.{FitsHeader}
use pc_unlock_project.Network.Stream.{Frame, frame_bytes}

-- What the other side takes. SendFrame tests none of it.
abbrev pub IsSendable : Frame → Type 0
IsSendable f = FitsHeader f.0 × (is_rejected_header f.0 ≡ false) × (f.0.payload_length ≡ length f.1)

abbrev pub wire : List Frame → Bytes
wire [] = []
wire (f ∷ fs) = frame_bytes f ++ wire fs

module _ (h : FrameHeader) (payload rest : Bytes) where
  abbrev sent : Bytes
  sent = serialize_frame_header h ++ (payload ++ rest)
