-- ===== src/Discovery/Listener.antt =====
-- windows/network/MdnsResponder.cpp: the responder, from its start to its stop, and its answer to one
-- datagram.
pub mod Answers
use pc_unlock_project.Common.{
  ℕ, ◌%◌, ◌^◌, Bool, true, false, not, ◌||◌, leb, ◌==◌, if◌then◌else◌, List, [], ◌∷◌, ◌++◌, Option,
  none, some, Bytes, length, codes,
}
use pc_unlock_project.Protocol.Types.{opcode, discover, discovery_response, frame_header_size}
use pc_unlock_project.Protocol.PcStates.{PcState, state_value, online}
use pc_unlock_project.Protocol.Frame.{
  FrameHeader, default_header, serialize_frame_header, deserialize_frame_header,
}
use pc_unlock_project.Text.Search.{find_text}
use pc_unlock_project.Discovery.Payload.{DiscoveryAnnouncement, build_discovery_response_payload}

pub record MdnsResponder : Type 0 where
  pub udp_port : ℕ  -- uint16_t
  pub tcp_port : ℕ  -- uint16_t
  pub has_socket : Bool
  pub is_running : Bool
  pub state : PcState
  pub host_name : Bytes
  pub has_thread : Bool

abbrev host_name_of : Option Bytes → Bytes
host_name_of none = codes "Windows-PC"
host_name_of (some name) = name

-- The constructor; `computer` is what GetComputerNameA gives.
abbrev pub new_responder : Option Bytes → ℕ → ℕ → MdnsResponder
new_responder computer udp_port tcp_port = record {
  udp_port = udp_port;
  tcp_port = tcp_port;
  has_socket = false;
  is_running = false;
  state = online;
  host_name = host_name_of computer;
  has_thread = false;
}

abbrev set_announced_state : PcState → MdnsResponder → MdnsResponder
set_announced_state state r = record r { state = state }

-- How far the calls of Start get.
pub data StartCalls : Type 0 where
  no_socket not_bound no_thread all_done : StartCalls

abbrev listening : Bool → MdnsResponder → Bool × MdnsResponder
listening threaded r =
    (threaded, record r { has_socket = true; is_running = true; has_thread = threaded })

abbrev start_calls : StartCalls → MdnsResponder → Bool × MdnsResponder
start_calls no_socket r = (false, record r { has_socket = false })
start_calls not_bound r = (false, record r { has_socket = false })
start_calls no_thread r = listening false r
start_calls all_done r = listening true r

unfoldable pub start : StartCalls → PcState → MdnsResponder → Bool × MdnsResponder
start calls initial r =
    if r.is_running then (false, r) else start_calls calls (record r { state = initial })

unfoldable pub stop : MdnsResponder → MdnsResponder
stop r =
    if not r.is_running
    then r
    else record r { is_running = false; has_socket = false; has_thread = false }

abbrev pub mdns_service_type : Bytes
mdns_service_type = codes "_mobileunlock._tcp.local."

abbrev is_found : Option ℕ → Bool
is_found none = false
is_found (some pos) = true

abbrev is_discover : Option FrameHeader → Bool
is_discover none = false
is_discover (some h) = h.message_type == opcode discover

unfoldable pub is_valid_query : Bytes → Bool
is_valid_query query =
    if leb frame_header_size (length query)
    then is_discover (deserialize_frame_header query)
    else is_found (find_text (codes "_mobileunlock._tcp") query)
      || is_found (find_text (codes "DISCOVER") query)

abbrev pub announcement : MdnsResponder → DiscoveryAnnouncement
announcement r = record {
  host_name = r.host_name;
  port = r.tcp_port;
  state = state_value r.state;
  service_type = mdns_service_type;
}

abbrev pub response_header : Bytes → FrameHeader
response_header payload = record default_header {
  message_type = opcode discovery_response;
  message_id = 1;
  payload_length = length payload % 2 ^ 32;
  sequence_number = 1;
}

unfoldable pub response_frame : MdnsResponder → Bytes
response_frame r =
    let payload = build_discovery_response_payload (announcement r) in
    serialize_frame_header (response_header payload) ++ payload

-- One turn of ListenerLoop: the datagram that recvfrom gives, if it gives one, and what is sent back.
unfoldable pub listener_turn : MdnsResponder → Option Bytes → List Bytes
listener_turn r none = []
listener_turn r (some query) = if is_valid_query query then response_frame r ∷ [] else []
