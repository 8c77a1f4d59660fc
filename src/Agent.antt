-- ===== src/Agent.antt =====
-- windows/user_session_agent/UserSessionAgent.cpp: the agent in the user's session, which locks the
-- workstation for the service.
use pc_unlock_project.Common.{
  ℕ, Bool, true, false, ◌==◌, if◌then◌else◌, List, [], ◌∷◌, ◌++◌, Option, none, some, Bytes, codes,
}
use pc_unlock_project.Text.Decimal.{decimal}
use pc_unlock_project.Protocol.Types.{
  opcode, protocol_magic, protocol_major_version, protocol_minor_version, lock_request,
  lock_response, ping, pong, status_response,
}
use pc_unlock_project.Protocol.Frame.{
  FrameHeader, default_header, serialize_frame_header, deserialize_frame_header,
}
use pc_unlock_project.Auth.Types.{next_sequence, size_u32}

abbrev pub lock_succeeded : Bytes
lock_succeeded = codes "{\"status\":\"SUCCESS\"}"

abbrev pub lock_failed : Bytes
lock_failed = codes "{\"status\":\"FAILURE\",\"reason\":\"LOCK_FAILED\"}"

unfoldable pub lock_response_header : FrameHeader → Bytes → FrameHeader
lock_response_header header payload = record {
  magic = protocol_magic;
  major_version = protocol_major_version;
  minor_version = protocol_minor_version;
  message_type = opcode lock_response;
  reserved = 0;
  message_id = header.message_id;
  payload_length = size_u32 payload;
  sequence_number = next_sequence header.sequence_number;
}

-- ProcessLockCommand: the answer and the two out parameters. `locks` is the answer of the system's
-- LockWorkStation, `none` if there is no such function.
unfoldable pub process_lock_command : Option Bool → FrameHeader → Bool × FrameHeader × Bytes
process_lock_command (some true) header =
    (true, lock_response_header header lock_succeeded, lock_succeeded)
process_lock_command (some false) header =
    (false, lock_response_header header lock_failed, lock_failed)
process_lock_command none header = (false, lock_response_header header lock_failed, lock_failed)

abbrev pub lock_message : Bool × FrameHeader × Bytes → Bytes
lock_message (locked, response, payload) = serialize_frame_header response ++ payload

-- The messages that the agent sends back for one message of the service.
unfoldable pub answer_command : Option Bool → FrameHeader → List Bytes
answer_command locks header =
    if header.message_type == opcode lock_request
    then lock_message (process_lock_command locks header) ∷ []
    else if header.message_type == opcode ping
    then serialize_frame_header (record default_header {
      message_type = opcode pong;
      message_id = header.message_id;
      sequence_number = next_sequence header.sequence_number;
    })
      ∷ []
    else []

-- A turn of the loop in Run. `none` is a read that timed out.
unfoldable pub agent_turn : Option Bool → Option Bytes → List Bytes
agent_turn locks none = []
agent_turn locks (some []) = []
agent_turn locks (some (b ∷ bs)) = elim (deserialize_frame_header (b ∷ bs)) [
  | none ↦ []
  | some header ↦ answer_command locks header
]

-- ReportSessionState: the message about a state of the computer, given by its number.
unfoldable pub report_session_state : ℕ → Bytes
report_session_state state =
    let payload = codes "{\"state\":" ++ (decimal state ++ codes "}") in
    serialize_frame_header (record default_header {
      message_type = opcode status_response;
      message_id = 1;
      sequence_number = 1;
      payload_length = size_u32 payload;
    })
    ++ payload
