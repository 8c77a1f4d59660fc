-- ===== src/Service/State.antt =====
-- windows/service/MobileUnlockService.h: the state that the handlers share, and what they send.
use pc_unlock_project.Common.{ℕ, Bool, false, List, Option, none, some, Bytes}
use pc_unlock_project.Protocol.Types.{
  MessageType, opcode, protocol_magic, protocol_major_version, protocol_minor_version,
}
use pc_unlock_project.Protocol.Frame.{FrameHeader}
pub use pc_unlock_project.Protocol.PcStates.{PcState, offline, online, locked}
use pc_unlock_project.Diagnostics.{DiagnosticManager, increment_processed_messages, new_manager}
use pc_unlock_project.Auth.Types.{AuthState, initial_state}

-- What the handlers read and write of the service, with the objects that they call: the
-- AuthenticationManager and the registry of devices.
pub record ServiceState (Store : Type 0) : Type 0 where
  pub auth : AuthState
  pub store : Store
  pub current_state : PcState
  pub mdns_state : Option PcState  -- none while m_mdnsResponder is null
  pub mdns_runs : Bool  -- the responder's socket and thread are there
  pub is_running : Bool
  pub has_ipc_server : Bool
  pub has_network_engine : Bool
  pub pending_lock_client_id : ℕ  -- uint64_t
  pub pending_lock_message_id : ℕ  -- uint32_t
  pub diagnostics : DiagnosticManager

pub data LogEvent : Type 0 where
  service_fault lock_executed : LogEvent

-- A call of `SendFrame`, of `SendMessageToClient` (the client of the pipe is the agent), and of
-- `LogSecurityEvent`.
pub data Output : Type 0 where
  to_phone : ℕ → FrameHeader → Bytes → Output
  to_agent : Bytes → Output
  logged : LogEvent → Output

abbrev pub Effect : Type 0 → Type 0
Effect Store = ServiceState Store × List Output

abbrev pub set_mdns : PcState → Option PcState → Option PcState
set_mdns state none = none
set_mdns state (some old) = some state

unfoldable pub set_state : {Store : Type 0} → PcState → ServiceState Store → ServiceState Store
set_state state s = record s { current_state = state; mdns_state = set_mdns state s.mdns_state }

abbrev pub counted : {Store : Type 0} → ServiceState Store → ServiceState Store
counted s = record s { diagnostics = increment_processed_messages s.diagnostics }

-- The members that every header of the service's own has.
unfoldable pub service_header : MessageType → ℕ → ℕ → ℕ → FrameHeader
service_header type message_id sequence_number payload_length = record {
  magic = protocol_magic;
  major_version = protocol_major_version;
  minor_version = protocol_minor_version;
  message_type = opcode type;
  reserved = 0;
  message_id = message_id;
  payload_length = payload_length;
  sequence_number = sequence_number;
}

-- The constructor, with the manager as it starts and the registry as it is.
abbrev pub new_service : {Store : Type 0} → ℕ → Store → ServiceState Store
new_service now store = record {
  auth = initial_state;
  store = store;
  current_state = PcState.offline;
  mdns_state = none;
  mdns_runs = false;
  is_running = false;
  has_ipc_server = false;
  has_network_engine = false;
  pending_lock_client_id = 0;
  pending_lock_message_id = 0;
  diagnostics = new_manager now;
}
