-- ===== src/Discovery/Listener/Answers.antt =====
-- windows/network/MdnsResponder.cpp: what a phone that asks is told, and who is not answered.
use pc_unlock_project.Common.{
  ℕ, ◌%◌, ◌^◌, ◌≤◌, ◌<◌, ◌≡◌, ◌≢◌, refl, ap, true, false, leb, ltb, [], ◌∷◌, ◌++◌, none, some,
  Bytes, All, IsByte, length, arith, length-append, Bool-cases, Option-cases, inl, inr,
}
use pc_unlock_project.Protocol.Types.{opcode, discover, max_payload_size, is_valid_message_type}
use pc_unlock_project.Protocol.PcStates.{PcState, state_value}
use pc_unlock_project.Protocol.Frame.{
  FrameHeader, serialize_frame_header, deserialize_frame_header, is_rejected_header,
}
use pc_unlock_project.Protocol.Frame.RoundTrip.{FitsHeader, deserialize_frame_header-serialize}
use pc_unlock_project.Protocol.Frame.Magic.{first_byte}
use pc_unlock_project.Text.Decimal.{length-decimal}
use pc_unlock_project.Discovery.Payload.{
  DiscoveryAnnouncement, build_discovery_response_payload, parse_discovery_response_payload,
}
use pc_unlock_project.Discovery.Payload.RoundTrip.{
  IsPlain, IsNoQuote, parse_discovery_response_payload-build,
}
use pc_unlock_project.Discovery.Listener.{
  MdnsResponder, announcement, response_header, response_frame, is_valid_query, listener_turn,
  mdns_service_type,
}

-- A responder whose name and port can be announced.
pub record IsNamed (r : MdnsResponder) : Type 0 where
  pub host : r.host_name ≢ []
  pub plain : All IsNoQuote r.host_name
  pub short : length r.host_name ≤ 255
  pub port_real : 0 < r.tcp_port
  pub port_small : r.tcp_port < 2 ^ 16

state_value-lt : (s : PcState) → state_value s < 10
state_value-lt PcState.unknown = omega arith
state_value-lt PcState.offline = omega arith
state_value-lt PcState.online = omega arith
state_value-lt PcState.locked = omega arith
state_value-lt PcState.unlocked = omega arith
state_value-lt PcState.suspended = omega arith
state_value-lt PcState.sleeping = omega arith
state_value-lt PcState.pairing = omega arith
state_value-lt PcState.authenticating = omega arith
state_value-lt PcState.proto_error = omega arith

length-payload :
    (r : MdnsResponder)
    → length r.host_name ≤ 255
    → length (build_discovery_response_payload (announcement r)) ≤ 400
unfolding build_discovery_response_payload
length-payload r h =
    simp length-append
      (omega (arith, h, length-decimal r.tcp_port, length-decimal (state_value r.state)))

announcement-IsPlain : (r : MdnsResponder) → IsNamed r → IsPlain (announcement r)
announcement-IsPlain r f = record {
  host = f.host;
  host_plain = f.plain;
  port_real = f.port_real;
  port_small = f.port_small;
  state_small = omega (arith, state_value-lt r.state);
  service = ground arith;
  service_plain = ground arith;
  fits = omega (arith, length-payload r f.short);
}

response_header_lem :
    (payload : Bytes)
    → length payload ≤ 400
    → FitsHeader (response_header payload) × (is_rejected_header (response_header payload) ≡ false)
unfolding is_valid_message_type
response_header_lem payload h =
    let size : length payload % 2 ^ 32 ≡ length payload = omega (arith, h) in
    let room : ltb max_payload_size (length payload) ≡ false = ground (arith, h) in
    (ground arith, rw (size, room) refl)

short_query :
    (query : Bytes) (h : FrameHeader)
    → ltb (length query) 24 ≡ true
    → deserialize_frame_header query ≡ some h
    → ⊥
unfolding deserialize_frame_header
short_query query h short e =
    let nothing : deserialize_frame_header query ≡ none =
      rw (short, deserialize_frame_header) refl in
    ground (arith, nothing, e)

long_query :
    (query : Bytes) (h : FrameHeader)
    → deserialize_frame_header query ≡ some h
    → leb 24 (length query) ≡ true
unfolding deserialize_frame_header
long_query query h e = elim (Bool-cases (ltb (length query) 24)) [
  | inl short ↦ absurd (short_query query h short e)
  | inr long ↦ ground arith
]

-- A datagram that starts with the header of a DISCOVER is answered by one frame. Its header is accepted,
-- is a DISCOVERY_RESPONSE, and says the length of what follows; and what follows is read as the
-- announcement of the host's name, the port of the service and the present state. The host's name is
-- not empty, has no quotes and at most 255 bytes; the port is not 0.
pub listener_turn-announces :
    (r : MdnsResponder) (query : Bytes) (h : FrameHeader) (out : DiscoveryAnnouncement)
    → IsNamed r
    → deserialize_frame_header query ≡ some h
    → h.message_type ≡ opcode discover
    → (payload : Bytes) × (listener_turn r (some query)
        ≡ (serialize_frame_header (response_header payload) ++ payload) ∷ [])
      × (deserialize_frame_header (serialize_frame_header (response_header payload) ++ payload)
          ≡ some (response_header payload))
      × ((response_header payload).payload_length ≡ length payload)
      × (parse_discovery_response_payload payload out ≡ (true, announcement r))
unfolding listener_turn is_valid_query response_frame
listener_turn-announces r query h out f e asked =
    let payload = build_discovery_response_payload (announcement r) in
    let size = length-payload r f.short in
    let (fits, kept) = response_header_lem payload size in
    let long = long_query query h e in
    (
      payload,
      rw (long, e, asked) refl,
      deserialize_frame_header-serialize (response_header payload) payload fits kept,
      omega (arith, size),
      parse_discovery_response_payload-build (announcement r) out (announcement-IsPlain r f),
    )

-- A text that names the whole service type is not answered, whoever asks, unless it starts with the
-- char of a frame.
pub listener_turn-service_type :
    (r : MdnsResponder) (c : ℕ) (cs pre post : Bytes)
    → All IsByte (c ∷ cs)
    → c ≢ 0x4D
    → c ∷ cs ≡ pre ++ (mdns_service_type ++ post)
    → listener_turn r (some (c ∷ cs)) ≡ []
unfolding listener_turn is_valid_query
listener_turn-service_type r c cs pre post a other e =
    let long : leb 24 (length (c ∷ cs)) ≡ true =
      ground (arith, ap length e, length-append pre (mdns_service_type ++ post)) in
    elim (Option-cases (deserialize_frame_header (c ∷ cs))) [
      | inl bad ↦ rw (long, bad) refl
      | inr (h, found) ↦ absurd (other (first_byte c cs h a found))
    ]
