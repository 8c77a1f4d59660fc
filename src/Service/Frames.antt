-- ===== src/Service/Frames.antt =====
-- windows/service/MobileUnlockService.cpp: `HandleNetworkFrame`.
use pc_unlock_project.Common.{
  ℕ, Bool, false, not, ◌&&◌, ◌==◌, if◌then◌else◌, [], ◌∷◌, ◌++◌, Option, none, some, Bytes, codes,
}
use pc_unlock_project.Protocol.Types.{
  opcode, ping, pong, auth_request, auth_response, lock_request, lock_response,
}
use pc_unlock_project.Protocol.Frame.{FrameHeader, default_header, serialize_frame_header}
use pc_unlock_project.Protocol.SignedMessage.{SignedMessage}
use pc_unlock_project.Pairing.Identity.{DeviceId, device_id_to_string}
use pc_unlock_project.Pairing.Record.{Devices, is_device_active}
use pc_unlock_project.Auth.Types.{Reply, next_sequence, size_u32}
use pc_unlock_project.Auth.Request.{handle_auth_request}
use pc_unlock_project.Auth.Response.{handle_auth_response}
use pc_unlock_project.Service.State.{
  ServiceState, to_phone, to_agent, Effect, counted, service_header,
}
use pc_unlock_project.Service.Devices.{auth_request_device, lock_request_device}

-- What a frame meets: the clock, the generator's nonce, the memory of the variable `deviceId`, and
-- whether the agent is connected.
pub record Surroundings : Type 0 where
  pub now : ℕ
  pub random : Option Bytes
  pub unset : DeviceId
  pub agent_connected : Bool

abbrev pub failure_of : Bytes → Bytes
failure_of reason = codes "{\"status\":\"FAILURE\",\"reason\":\"" ++ (reason ++ codes "\"}")

module _ {Store : Type 0} where
  unfoldable pub answer_ping : ℕ → FrameHeader → ServiceState Store → Effect Store
  answer_ping client header s = (
    s,
    to_phone client (service_header pong header.message_id (next_sequence header.sequence_number) 0)
          []
        ∷ [],
  )

  -- What the AuthenticationManager answers is sent to the phone.
  unfoldable pub answered : ℕ → ServiceState Store → Reply Store → Effect Store
  answered client s r =
      (record s { auth = r.state; store = r.store }, to_phone client r.header r.payload ∷ [])

  unfoldable pub lock_failure : ℕ → FrameHeader → Bytes → ServiceState Store → Effect Store
  lock_failure client header reason s = (
    s,
    to_phone client
          (service_header lock_response header.message_id (next_sequence header.sequence_number)
            (size_u32 (failure_of reason)))
          (failure_of reason)
        ∷ [],
  )

  -- The request goes to the agent, and the phone is noted for the agent's answer.
  unfoldable pub forward_lock : ℕ → FrameHeader → Bytes → ServiceState Store → Effect Store
  forward_lock client header payload s = (
    record s { pending_lock_client_id = client; pending_lock_message_id = header.message_id },
    to_agent (
          serialize_frame_header
            (service_header lock_request header.message_id 1 (size_u32 payload))
          ++ payload)
        ∷ [],
  )

-- The test that refuses a device. A request that names none passes.
abbrev pub is_unauthorized : (E : Devices) → Option DeviceId → E.Store → Bool
is_unauthorized E none store = false
is_unauthorized E (some id) store = not (is_device_active E (device_id_to_string id) store)

module _ (E : Devices) where
  unfoldable pub handle_lock_request :
      Surroundings → ℕ → FrameHeader → Bytes → ServiceState E.Store → Effect E.Store
  handle_lock_request w client header payload s =
      if is_unauthorized E (lock_request_device payload w.unset) s.store
      then lock_failure client header (codes "DEVICE_UNAUTHORIZED") s
      else if not (s.has_ipc_server && w.agent_connected)
      then lock_failure client header (codes "AGENT_UNAVAILABLE") s
      else forward_lock client header payload s

  module _ (verify : Bytes → SignedMessage → Bytes → Bool) where
    unfoldable pub dispatch_frame :
        Surroundings → ℕ → FrameHeader → Bytes → ServiceState E.Store → Effect E.Store
    dispatch_frame w client header payload s =
        if header.message_type == opcode ping
        then answer_ping client header s
        else if header.message_type == opcode auth_request
        then answered client s (
            handle_auth_request E w.now w.random (auth_request_device payload w.unset) header
              default_header s.auth s.store)
        else if header.message_type == opcode auth_response
        then answered client s (handle_auth_response E verify w.now header payload s.auth s.store)
        else if header.message_type == opcode lock_request
        then handle_lock_request w client header payload s
        else (s, [])

    unfoldable pub handle_network_frame :
        Surroundings → ℕ → FrameHeader → Bytes → ServiceState E.Store → Effect E.Store
    handle_network_frame w client header payload s =
        dispatch_frame w client header payload (counted s)
