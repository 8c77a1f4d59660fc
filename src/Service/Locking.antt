-- ===== src/Service/Locking.antt =====
-- windows/service/MobileUnlockService.cpp and windows/user_session_agent/UserSessionAgent.cpp together:
-- a request to lock on its way to the agent, and the agent's answer on its way to the phone.
use pc_unlock_project.Common.{
  ℕ, ◌^◌, ◌≤◌, ◌<◌, ◌≡◌, ◌≢◌, refl, ap, ◌∙◌, Bool, true, false, ◌==◌, List, [], ◌∷◌, ◌++◌, Option,
  none, some, Bytes, length, drop, arith, length-append, drop-append,
}
use pc_unlock_project.Protocol.Types.{lock_request, lock_response, is_valid_message_type}
use pc_unlock_project.Protocol.Frame.{
  FrameHeader, serialize_frame_header, deserialize_frame_header, is_rejected_header,
}
use pc_unlock_project.Protocol.Frame.RoundTrip.{
  FitsHeader, deserialize_frame_header-serialize, length-serialize_frame_header,
}
use pc_unlock_project.Auth.Types.{size_u32}
use pc_unlock_project.Agent.{
  agent_turn, answer_command, process_lock_command, lock_message, lock_response_header,
  lock_succeeded, lock_failed,
}
use pc_unlock_project.Service.State.{
  ServiceState, Output, to_phone, to_agent, logged, lock_executed, Effect, counted, service_header,
  set_state, locked,
}
use pc_unlock_project.Pairing.Record.{Devices}
use pc_unlock_project.Service.Frames.{Surroundings, handle_lock_request, forward_lock}
use pc_unlock_project.Service.Authority.{MayLock, MayLock-forward}
use pc_unlock_project.Service.Messages.{
  handle_ipc_message, dispatch_message, handle_lock_response, relayed,
}

-- What the agent reports, by the answer of LockWorkStation.
abbrev pub outcome : Option Bool → Bytes
outcome (some true) = lock_succeeded
outcome (some false) = lock_failed
outcome none = lock_failed

length-outcome : (locks : Option Bool) → length (outcome locks) ≤ 4096
length-outcome (some true) = omega arith
length-outcome (some false) = omega arith
length-outcome none = omega arith

lock_message-process_lock_command :
    (locks : Option Bool) (h : FrameHeader)
    → lock_message (process_lock_command locks h)
      ≡ serialize_frame_header (lock_response_header h (outcome locks)) ++ outcome locks
unfolding process_lock_command
lock_message-process_lock_command (some true) h = refl
lock_message-process_lock_command (some false) h = refl
lock_message-process_lock_command none h = refl

-- The frame of a request, as the agent reads it.
module _ (id : ℕ) (payload : Bytes) (small : id < 2 ^ 32) (fits : length payload ≤ 4096) where
  request_header-FitsHeader : FitsHeader (service_header lock_request id 1 (size_u32 payload))
  unfolding service_header
  request_header-FitsHeader = record {
    magic = omega arith;
    major_version = omega arith;
    minor_version = omega arith;
    message_type = omega arith;
    reserved = omega arith;
    message_id = omega (arith, small);
    payload_length = omega arith;
    sequence_number = omega arith;
  }

  request_header-accepted :
      is_rejected_header (service_header lock_request id 1 (size_u32 payload)) ≡ false
  unfolding service_header is_valid_message_type
  request_header-accepted = ground arith

module _ (h : FrameHeader) (payload : Bytes) (small : h.message_id < 2 ^ 32)
    (fits : length payload ≤ 4096) where
  response_header-FitsHeader : FitsHeader (lock_response_header h payload)
  unfolding lock_response_header
  response_header-FitsHeader = record {
    magic = omega arith;
    major_version = omega arith;
    minor_version = omega arith;
    message_type = omega arith;
    reserved = omega arith;
    message_id = omega (arith, small);
    payload_length = omega arith;
    sequence_number = omega arith;
  }

  response_header-accepted : is_rejected_header (lock_response_header h payload) ≡ false
  unfolding lock_response_header is_valid_message_type
  response_header-accepted = ground arith

agent_turn_long :
    (locks : Option Bool) (bytes : Bytes) (h : FrameHeader)
    → 24 ≤ length bytes
    → deserialize_frame_header bytes ≡ some h
    → agent_turn locks (some bytes) ≡ answer_command locks h
unfolding agent_turn
agent_turn_long locks [] h long e = absurd (omega arith)
agent_turn_long locks (b ∷ bs) h long e = rw (e, agent_turn) refl

framed_length :
    (h : FrameHeader) (payload : Bytes) → 24 ≤ length (serialize_frame_header h ++ payload)
framed_length h payload =
    omega (arith, length-append (serialize_frame_header h) payload, length-serialize_frame_header h)

-- The agent answers a request.
agent_answers :
    (locks : Option Bool) (id : ℕ) (payload : Bytes)
    → id < 2 ^ 32
    → length payload ≤ 4096
    → let h = service_header lock_request id 1 (size_u32 payload) in
      agent_turn locks (some (serialize_frame_header h ++ payload))
      ≡ (serialize_frame_header (lock_response_header h (outcome locks)) ++ outcome locks) ∷ []
unfolding answer_command
agent_answers locks id payload small fits =
    let h = service_header lock_request id 1 (size_u32 payload) in
    agent_turn_long locks (serialize_frame_header h ++ payload) h (framed_length h payload) (
      deserialize_frame_header-serialize h payload (request_header-FitsHeader id payload small fits)
        (request_header-accepted id payload small fits))
    ∙ (unfold service_header in
        ap (λ (m : Bytes). m ∷ []) (lock_message-process_lock_command locks h))

received :
    {Store : Type 0} (bytes : Bytes) (h : FrameHeader) (s : ServiceState Store)
    → deserialize_frame_header bytes ≡ some h
    → handle_ipc_message bytes s ≡ dispatch_message h (drop 24 bytes) (counted s)
unfolding handle_ipc_message
received bytes h s e = rw (e, handle_ipc_message) refl

-- The service takes the agent's answer.
service_takes :
    {Store : Type 0} (h : FrameHeader) (payload : Bytes) (s : ServiceState Store)
    → h.message_id < 2 ^ 32
    → length payload ≤ 4096
    → handle_ipc_message (serialize_frame_header (lock_response_header h payload) ++ payload) s
      ≡ handle_lock_response payload (counted s)
service_takes h payload s small fits =
    let r = lock_response_header h payload in
    let read : deserialize_frame_header (serialize_frame_header r ++ payload) ≡ some r =
      deserialize_frame_header-serialize r payload (response_header-FitsHeader h payload small fits)
        (response_header-accepted h payload small fits) in
    let rest : drop 24 (serialize_frame_header r ++ payload) ≡ payload =
      drop-append 24 (serialize_frame_header r) payload (length-serialize_frame_header r) in
    received (serialize_frame_header r ++ payload) r s read
    ∙ ap (λ (x : Bytes). dispatch_message r x (counted s)) rest
    ∙ (unfold dispatch_message lock_response_header in refl)

-- The message to the agent in an effect of `forward_lock`.
abbrev request_message : FrameHeader → Bytes → Bytes
request_message header payload =
    serialize_frame_header (service_header lock_request header.message_id 1 (size_u32 payload))
    ++ payload

relayed_lem :
    {Store : Type 0} (payload : Bytes) (s : ServiceState Store)
    → s.pending_lock_client_id ≢ 0
    → s.has_network_engine ≡ true
    → relayed payload s
      ≡ to_phone s.pending_lock_client_id
          (service_header lock_response s.pending_lock_message_id 2 (size_u32 payload))
          payload
        ∷ []
unfolding relayed
relayed_lem payload s real engine =
    let waits : (s.pending_lock_client_id == 0) ≡ false = ground arith in rw (waits, engine) refl

-- A request that may lock is answered: the agent gets one message and sends one back, and on that the
-- phone that asked gets a LOCK_RESPONSE with the number of its request and what the agent reports. The
-- service then takes the workstation for locked and logs that it is, also if LockWorkStation failed.
pub lock_request-answered :
    (E : Devices) (w : Surroundings) (locks : Option Bool) (client : ℕ) (header : FrameHeader)
    (payload : Bytes) (s : ServiceState E.Store)
    → MayLock E w payload s
    → client ≢ 0
    → s.has_network_engine ≡ true
    → header.message_id < 2 ^ 32
    → length payload ≤ 4096
    → let (s1, out) = handle_lock_request E w client header payload s in
      (message : Bytes) × (reply : Bytes) × (out ≡ to_agent message ∷ [])
      × (agent_turn locks (some message) ≡ reply ∷ [])
      × ((handle_ipc_message reply s1).1
          ≡ to_phone client
              (service_header lock_response header.message_id 2 (size_u32 (outcome locks)))
              (outcome locks)
            ∷ logged lock_executed
            ∷ [])
      × ((handle_ipc_message reply s1).0.current_state ≡ locked)
unfolding forward_lock
lock_request-answered E w locks client header payload s may real engine small fits =
    let h = service_header lock_request header.message_id 1 (size_u32 payload) in
    let s1 = (forward_lock client header payload s).0 in
    let taken =
      service_takes h (outcome locks) s1 (unfold service_header in small) (length-outcome locks) in
    rw (MayLock-forward E w client header payload s may) (
      request_message header payload,
      serialize_frame_header (lock_response_header h (outcome locks)) ++ outcome locks,
      refl,
      agent_answers locks header.message_id payload small fits,
      ap (λ (eff : Effect E.Store). eff.1) taken
          ∙ (unfold handle_lock_response in
              ap (λ (out : List Output). out ++ logged lock_executed ∷ [])
                (relayed_lem (outcome locks) (counted s1) real engine)),
      ap (λ (eff : Effect E.Store). eff.0.current_state) taken
          ∙ (unfold handle_lock_response set_state in refl),
    )
