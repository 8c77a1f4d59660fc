-- ===== src/Tests/Services.antt =====
-- The theorems on the service at a phone that is paired, and a run that locks the workstation.
use pc_unlock_project.Common.{
  ◌≡◌, ◌↔◌, refl, true, false, ◌&&◌, List, [], ◌∷◌, ◌++◌, some, Bytes, arith, codes, replicate, inl,
  inr, bytes_eq, All,
}
use pc_unlock_project.Common.Assoc.{find, bytes_Eq}
use mathlib.Core.List.{Sublistᴰ as IsSublist}
use pc_unlock_project.Protocol.Types.{
  opcode, auth_response, lock_request, lock_response, pair_request,
}
use pc_unlock_project.Protocol.Frame.{FrameHeader, default_header}
use pc_unlock_project.Protocol.SignedMessage.{serialize_signed_message}
use pc_unlock_project.Pairing.Identity.{device_id_to_string}
use pc_unlock_project.Pairing.Record.{is_device_active}
use pc_unlock_project.Text.Hex.{bytes_to_hex, byte_hex}
use pc_unlock_project.Auth.Types.{size_u32}
use pc_unlock_project.Auth.Replay.{Distinct}
use pc_unlock_project.Agent.{agent_turn}
use pc_unlock_project.Service.State.{
  ServiceState, new_service, online, locked, to_phone, to_agent, logged, lock_executed,
  service_header, counted,
}
use pc_unlock_project.Service.Devices.{auth_request_device, auth_request_device_lem}
use pc_unlock_project.Service.Frames.{Surroundings, handle_lock_request, handle_network_frame}
use pc_unlock_project.Service.Messages.{handle_ipc_message}
use pc_unlock_project.Service.Authority.{
  Names, raw, MayLock, reaches_agent, handle_lock_request-forwards_iff,
}
use pc_unlock_project.Service.Sessions.{Event, frame, accepted_events, accepted_events-Distinct}
use pc_unlock_project.Service.Races.Handlers.{
  Handler, asks, responds, whole, asked, accesses-answered,
}
use pc_unlock_project.Service.Races.{
  Variables, Access, stores_client, stores_number, takes, replies, accesses, stored_clients,
  answered_clients, IsKnown, access, take_client,
}
use pc_unlock_project.Service.Locking.{outcome, lock_request-answered}
use pc_unlock_project.Service.Dispatch.{
  is_among, served_types, unserved_types, handle_network_frame-served_iff,
}
use pc_unlock_project.Service.Lifecycle.{Starts}
use pc_unlock_project.Service.Lifecycle.Laws.{Happening, starts, stops, handles}
use pc_unlock_project.Tests.Samples.{
  phone, records, one_phone, Records, request, verifies, nonce, answer, good_signature,
}

abbrev running : ServiceState Records
running = record (new_service 0 one_phone) {
  is_running = true;
  has_ipc_server = true;
  has_network_engine = true;
  mdns_state = some online;
  mdns_runs = true;
  current_state = online;
}

abbrev at_noon : Surroundings
at_noon = record { now = 1000; random = some nonce; unset = replicate 16 0; agent_connected = true }

abbrev lock_it : FrameHeader
lock_it = record default_header { message_type = opcode lock_request; message_id = 12 }

phone-Names : Names phone phone
phone-Names = raw (omega arith) (inl (omega arith))

phone_may : MayLock records at_noon phone running
unfolding is_device_active device_id_to_string bytes_to_hex byte_hex find bytes_eq
phone_may = (refl, inr (phone, phone-Names, refl))

handle_lock_request-forwards_iff_example :
    (reaches_agent (handle_lock_request records at_noon 5 lock_it phone running).1 ≡ true)
    ↔ MayLock records at_noon phone running
handle_lock_request-forwards_iff_example =
    handle_lock_request-forwards_iff records at_noon 5 lock_it phone running

lock_request-answered_example :
    let r = handle_lock_request records at_noon 5 lock_it phone running in
    (asked : Bytes) × (reply : Bytes) × (r.1 ≡ to_agent asked ∷ [])
    × (agent_turn (some false) (some asked) ≡ reply ∷ [])
    × ((handle_ipc_message reply r.0).1
        ≡ to_phone 5
            (service_header lock_response 12 2 (size_u32 (outcome (some false))))
            (outcome (some false))
          ∷ logged lock_executed
          ∷ [])
    × ((handle_ipc_message reply r.0).0.current_state ≡ locked)
lock_request-answered_example =
    lock_request-answered records at_noon (some false) 5 lock_it phone running phone_may
      (omega arith) refl (omega arith) (omega arith)

abbrev respond : FrameHeader
respond = record default_header { message_type = opcode auth_response; message_id = 10 }

-- A logon, and the phone's answer once more.
abbrev logon : List (Event records verifies)
logon =
    frame at_noon 5 request phone
    ∷ frame at_noon 5 respond (serialize_signed_message answer ++ good_signature)
    ∷ frame at_noon 6 respond (serialize_signed_message answer ++ good_signature)
    ∷ []

accepted_events-Distinct_example : Distinct (accepted_events records verifies running logon)
accepted_events-Distinct_example =
    accepted_events-Distinct records verifies running logon refl (omega arith)

abbrev no_request : Variables
no_request = record { pending_client = 0; pending_number = 0; taken = 0 }

-- Phones 5 and 6 ask with the numbers 12 and 13 while the agent answers twice.
abbrev mixed_accesses : List Access
mixed_accesses =
    stores_client 5
    ∷ stores_client 6
    ∷ takes
    ∷ stores_number 13
    ∷ stores_number 12
    ∷ replies true
    ∷ takes
    ∷ replies true
    ∷ []

one_answer : (accesses mixed_accesses no_request).1 ≡ (6, 12) ∷ []
unfolding accesses access take_client
one_answer = refl

abbrev two_handlers : List Handler
two_handlers = asks 5 12 ∷ asks 6 13 ∷ responds true ∷ responds true ∷ []

accesses-answered_example :
    IsSublist
      (answered_clients (accesses mixed_accesses no_request).1)
      (stored_clients mixed_accesses)
    × All (IsKnown no_request mixed_accesses) (accesses mixed_accesses no_request).1
    × IsSublist (accesses (whole two_handlers) no_request).1 (asked two_handlers)
accesses-answered_example = accesses-answered mixed_accesses two_handlers no_request refl refl

auth_request_device_lem_example :
    auth_request_device (codes "{\"deviceId\":\"11111111-1111-1111-1111-111111111111\"}") []
    ≡ codes "{\"deviceId\":\"111"
auth_request_device_lem_example =
    auth_request_device_lem (codes "{\"deviceId\":\"11111111-1111-1111-1111-111111111111\"}") []

abbrev pairing_frame : FrameHeader
pairing_frame = record default_header { message_type = opcode pair_request }

handle_network_frame-served_iff_example :
    ((handle_network_frame records verifies at_noon 5 pairing_frame [] running
        ≡ (counted running, []))
      ↔ (is_among pairing_frame.message_type served_types ≡ false))
    × ((is_among pairing_frame.message_type unserved_types
          && is_among pairing_frame.message_type served_types)
        ≡ false)
handle_network_frame-served_iff_example =
    handle_network_frame-served_iff records verifies at_noon 5 pairing_frame [] running

abbrev good_start : Starts
good_start = record {
  config_loads = true;
  ipc_starts = true;
  engine_starts = true;
  mdns_starts = false;
}

abbrev bad_start : Starts
bad_start = record good_start { engine_starts = false }

abbrev full_start : Starts
full_start = record good_start { mdns_starts = true }

abbrev a_life : List (Happening records verifies)
a_life =
    starts bad_start
    ∷ starts good_start
    ∷ stops
    ∷ starts full_start
    ∷ handles (frame at_noon 5 lock_it phone)
    ∷ []
