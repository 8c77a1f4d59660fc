-- ===== src/Credential/Probe.antt =====
-- windows/credential_provider/MobileUnlockCredential.cpp and windows/service/MobileUnlockService.cpp:
-- what the service sends over the pipe, as the tile reads it.
use pc_unlock_project.Common.{
  ℕ, ◌+◌, ◌*◌, ◌%◌, ◌≡◌, refl, ap, ◌∙◌, Bool, true, false, not, ◌&&◌, ◌==◌, [], ◌∷◌, ◌++◌, none,
  some, Bytes, All, All-append, take, drop, from_le, arith, if_cases, option_cases, Option-cases,
  inl, inr,
}
use mathlib.Core.Path.{subst}
use mathlib.Core.List.{append-nil}
use pc_unlock_project.Protocol.Types.{
  opcode, frame_header_size, protocol_magic, host_to_network16, ping, auth_request, auth_response,
  lock_request, lock_response, pong,
}
use pc_unlock_project.Protocol.Frame.{FrameHeader, serialize_frame_header, deserialize_frame_header}
use pc_unlock_project.Protocol.Frame.Magic.{first_of_memory, swapped_magic, first_byte}
use pc_unlock_project.Protocol.SignedMessage.{SignedMessage}
use pc_unlock_project.Pairing.Record.{Devices}
use pc_unlock_project.Service.State.{
  ServiceState, Output, to_phone, to_agent, logged, service_fault, lock_executed, Effect,
  service_header, counted,
}
use pc_unlock_project.Auth.Types.{size_u32, next_sequence}
use pc_unlock_project.Service.Devices.{lock_request_device}
use pc_unlock_project.Service.Frames.{
  Surroundings, handle_network_frame, dispatch_frame, handle_lock_request, lock_failure,
  forward_lock, answer_ping, answered, is_unauthorized,
}
use pc_unlock_project.Service.Messages.{
  handle_ipc_message, dispatch_message, handle_lock_response, relayed,
}
use pc_unlock_project.Lsa.Logon.{lsa_submit_buffer_magic}
use pc_unlock_project.Credential.Tile.{fetch_auth_state, accept_answer, probe}

-- A number whose lowest byte is that of a frame is not the magic number of a logon buffer.
other_magic : (n : ℕ) → ((0x4D + 256 * n) == lsa_submit_buffer_magic) ≡ false
other_magic n = ground arith

refused_bytes : (rest : Bytes) → accept_answer (0x4D ∷ rest) ≡ none
unfolding from_le
refused_bytes rest = rw (other_magic (from_le (take 3 (take 179 rest)))) (ground arith)

refused_frame :
    (h : FrameHeader) (payload : Bytes)
    → h.magic ≡ protocol_magic
    → fetch_auth_state true true (some (serialize_frame_header h ++ payload)) ≡ none
unfolding fetch_auth_state
refused_frame h payload e =
    let (s, front) = first_of_memory h in
    let first : host_to_network16 h.magic % 256 ≡ 0x4D =
      ap (λ m. host_to_network16 m % 256) e ∙ swapped_magic in
    ap (λ b. accept_answer (b ++ payload)) (front ∙ ap (λ c. c ∷ s) first)
    ∙ refused_bytes (s ++ payload)

-- No message to the pipe is a token.
abbrev pub NoToken : Output → Type 0
NoToken (to_agent message) = fetch_auth_state true true (some message) ≡ none
NoToken (to_phone client header payload) = Unit
NoToken (logged event) = Unit

abbrev Quiet : {Store : Type 0} → Effect Store → Type 0
Quiet effect = All NoToken effect.1

module _ (E : Devices) (verify : Bytes → SignedMessage → Bytes → Bool) (w : Surroundings)
    (client : ℕ) (header : FrameHeader) (payload : Bytes) (s : ServiceState E.Store) where
  lock-Quiet : Quiet (handle_lock_request E w client header payload s)
  unfolding handle_lock_request lock_failure forward_lock service_header
  lock-Quiet =
      if_cases {A = Effect E.Store} Quiet
        (is_unauthorized E (lock_request_device payload w.unset) s.store) _ _ (λ e. (tt, tt))
        (λ e.
          if_cases {A = Effect E.Store} Quiet (not (s.has_ipc_server && w.agent_connected)) _ _
            (λ f. (tt, tt))
            (λ f. (
              refused_frame (service_header lock_request header.message_id 1 (size_u32 payload))
                  payload refl,
              tt,
            )))

  dispatch-Quiet : Quiet (dispatch_frame E verify w client header payload s)
  unfolding dispatch_frame answer_ping answered
  dispatch-Quiet =
      if_cases {A = Effect E.Store} Quiet (header.message_type == opcode ping) _ _ (λ e. (tt, tt))
        (λ e.
          if_cases {A = Effect E.Store} Quiet (header.message_type == opcode auth_request) _ _
            (λ f. (tt, tt))
            (λ f.
              if_cases {A = Effect E.Store} Quiet (header.message_type == opcode auth_response) _ _
                (λ g. (tt, tt))
                (λ g.
                  if_cases {A = Effect E.Store} Quiet (header.message_type == opcode lock_request) _
                    _ (λ k. lock-Quiet) (λ k. tt))))

relayed-Quiet :
    {Store : Type 0} (payload : Bytes) (s : ServiceState Store) → All NoToken (relayed payload s)
unfolding relayed
relayed-Quiet payload s = ground arith

dispatch_message-Quiet :
    {Store : Type 0} (header : FrameHeader) (payload : Bytes) (s : ServiceState Store)
    → Quiet (dispatch_message header payload s)
unfolding dispatch_message handle_lock_response service_header
dispatch_message-Quiet {Store} header payload s =
    if_cases {A = Effect Store} Quiet (header.message_type == opcode ping) _ _
      (λ e. (
        subst (λ m. fetch_auth_state true true (some m) ≡ none) (append-nil _)
            (refused_frame
              (service_header pong header.message_id (next_sequence header.sequence_number) 0) []
              refl),
        tt,
      ))
      (λ e.
        if_cases {A = Effect Store} Quiet (header.message_type == opcode lock_response) _ _
          (λ f.
            All-append NoToken (relayed payload s) (logged lock_executed ∷ [])
              (relayed-Quiet payload s) (tt, tt))
          (λ f. tt))

message-Quiet :
    {Store : Type 0} (message : Bytes) (s : ServiceState Store)
    → Quiet (handle_ipc_message message s)
unfolding handle_ipc_message
message-Quiet {Store} message s =
    option_cases {B = Effect Store} Quiet (deserialize_frame_header message) _ _ (λ e. (tt, tt))
      (λ header e. dispatch_message-Quiet header (drop frame_header_size message) (counted s))

probe_unread : deserialize_frame_header probe ≡ none
probe_unread = elim (Option-cases (deserialize_frame_header probe)) [
  | inl e ↦ e
  | inr (h, e) ↦ absurd (omega (arith, first_byte b'{' _ h (ground arith) e))
]

-- Nothing that the service sends over the pipe makes a token, neither on a frame of a phone nor on a
-- message from the pipe; and to the tile's own question it sends nothing at all, but notes a fault.
pub handle_ipc_message-NoToken :
    (E : Devices) (verify : Bytes → SignedMessage → Bytes → Bool) (w : Surroundings)
    → (client : ℕ) (header : FrameHeader) (payload message : Bytes) (s : ServiceState E.Store)
    → All NoToken (handle_network_frame E verify w client header payload s).1
      × All NoToken (handle_ipc_message message s).1
      × (handle_ipc_message probe s ≡ (counted s, logged service_fault ∷ []))
unfolding handle_network_frame handle_ipc_message
handle_ipc_message-NoToken E verify w client header payload message s = (
  dispatch-Quiet E verify w client header payload (counted s),
  message-Quiet message s,
  rw (probe_unread, handle_ipc_message) refl,
)
