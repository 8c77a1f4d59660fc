-- ===== src/Tests/Discoveries.antt =====
-- The theorems on discovery, at a PC that is asked.
use pc_unlock_project.Common.{
  ◌≡◌, refl, true, false, [], ◌∷◌, ◌++◌, some, Bytes, arith, codes, length,
}
use pc_unlock_project.Protocol.Types.{opcode, discover, is_valid_message_type}
use pc_unlock_project.Protocol.Frame.{
  FrameHeader, default_header, serialize_frame_header, deserialize_frame_header, is_rejected_header,
}
use pc_unlock_project.Protocol.Frame.RoundTrip.{FitsHeader, deserialize_frame_header-serialize}
use pc_unlock_project.Discovery.Payload.{DiscoveryAnnouncement, parse_discovery_response_payload}
use pc_unlock_project.Discovery.Listener.{
  MdnsResponder, new_responder, announcement, response_header, listener_turn, mdns_service_type,
}
use pc_unlock_project.Discovery.Listener.Answers.{
  IsNamed, listener_turn-announces, listener_turn-service_type,
}

abbrev desktop : MdnsResponder
desktop = new_responder (some (codes "DESKTOP-1")) 8444 8443

desktop-IsNamed : IsNamed desktop
desktop-IsNamed = record {
  host = ground arith;
  plain = ground arith;
  short = omega arith;
  port_real = omega arith;
  port_small = omega arith;
}

abbrev blank : DiscoveryAnnouncement
blank = record { host_name = []; port = 8443; state = 2; service_type = mdns_service_type }

abbrev discover_header : FrameHeader
discover_header = record default_header { message_type = opcode discover; message_id = 7 }

discover_header-FitsHeader : FitsHeader discover_header
discover_header-FitsHeader = ground arith

discover_header_accepted : is_rejected_header discover_header ≡ false
unfolding is_valid_message_type
discover_header_accepted = refl

discover_read :
    deserialize_frame_header (serialize_frame_header discover_header ++ []) ≡ some discover_header
discover_read =
    deserialize_frame_header-serialize discover_header [] discover_header-FitsHeader
      discover_header_accepted

listener_turn-announces_example :
    (payload : Bytes) × (listener_turn desktop (some (serialize_frame_header discover_header ++ []))
      ≡ (serialize_frame_header (response_header payload) ++ payload) ∷ [])
    × (deserialize_frame_header (serialize_frame_header (response_header payload) ++ payload)
        ≡ some (response_header payload))
    × ((response_header payload).payload_length ≡ length payload)
    × (parse_discovery_response_payload payload blank ≡ (true, announcement desktop))
listener_turn-announces_example =
    listener_turn-announces desktop (serialize_frame_header discover_header ++ []) discover_header
      blank desktop-IsNamed discover_read refl

listener_turn-service_type_example :
    listener_turn desktop (some (codes "_mobileunlock._tcp.local.")) ≡ []
listener_turn-service_type_example =
    listener_turn-service_type desktop b'_' (codes "mobileunlock._tcp.local.") [] [] (ground arith)
      (ground arith) refl
