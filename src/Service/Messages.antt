-- ===== src/Service/Messages.antt =====
-- windows/service/MobileUnlockService.cpp: `HandleIpcMessage`, and the start and stop of the service.
use pc_unlock_project.Common.{
  not, ◌&&◌, ◌==◌, if◌then◌else◌, List, [], ◌∷◌, ◌++◌, none, some, Bytes, drop,
}
use pc_unlock_project.Protocol.Types.{opcode, ping, pong, lock_response, frame_header_size}
use pc_unlock_project.Protocol.Frame.{FrameHeader, serialize_frame_header, deserialize_frame_header}
use pc_unlock_project.Auth.Types.{next_sequence, size_u32}
use pc_unlock_project.Service.State.{
  ServiceState, Output, to_phone, to_agent, logged, service_fault, lock_executed, Effect, counted,
  service_header, set_state, locked,
}

module _ {Store : Type 0} where
  -- The answer of the agent, for the phone that asked last, if it was not answered yet.
  unfoldable pub relayed : Bytes → ServiceState Store → List Output
  relayed payload s =
      if not (s.pending_lock_client_id == 0) && s.has_network_engine
      then to_phone s.pending_lock_client_id
          (service_header lock_response s.pending_lock_message_id 2 (size_u32 payload)) payload
        ∷ []
      else []

  unfoldable pub handle_lock_response : Bytes → ServiceState Store → Effect Store
  handle_lock_response payload s = (
    set_state locked (record s { pending_lock_client_id = 0 }),
    relayed payload s ++ logged lock_executed ∷ [],
  )

  unfoldable pub dispatch_message : FrameHeader → Bytes → ServiceState Store → Effect Store
  dispatch_message header payload s =
      if header.message_type == opcode ping
      then (
        s,
        to_agent (
              serialize_frame_header
                (service_header pong header.message_id (next_sequence header.sequence_number) 0))
            ∷ [],
      )
      else if header.message_type == opcode lock_response
      then handle_lock_response payload s
      else (s, [])

  unfoldable pub handle_ipc_message : Bytes → ServiceState Store → Effect Store
  handle_ipc_message message s = elim (deserialize_frame_header message) [
    | none ↦ (counted s, logged service_fault ∷ [])
    | some header ↦ dispatch_message header (drop frame_header_size message) (counted s)
  ]
