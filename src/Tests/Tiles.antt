-- ===== src/Tests/Tiles.antt =====
-- The theorems on the tile of the logon screen, at a tile that is polled, and at a service that it asks.
use pc_unlock_project.Common.{
  ◌≡◌, refl, true, false, List, [], ◌∷◌, some, none, Bytes, All, from_le, replicate,
}
use pc_unlock_project.Protocol.Types.{opcode, lock_request}
use pc_unlock_project.Protocol.Frame.{FrameHeader, default_header}
use pc_unlock_project.Service.State.{new_service, logged, service_fault, counted}
use pc_unlock_project.Service.Frames.{Surroundings, handle_network_frame}
use pc_unlock_project.Service.Messages.{handle_ipc_message}
use pc_unlock_project.Credential.Tile.{
  get_serialization, fetch_auth_state, thread_turn, advise, probe,
}
use pc_unlock_project.Credential.Offers.{
  Event, advised, polled, run, offers, submission, get_serialization-offers,
}
use pc_unlock_project.Credential.Forms.{IsWellFormed, get_serialization-IsWellFormed}
use pc_unlock_project.Credential.Probe.{NoToken, handle_ipc_message-NoToken}
use pc_unlock_project.Tests.Samples.{phone, records, one_phone, verifies}

-- Magic number, version, and 172 more bytes.
abbrev logon_bytes : Bytes
logon_bytes = 0x53 ∷ 0x4C ∷ 0x55 ∷ 0x4D ∷ 1 ∷ 0 ∷ 0 ∷ 0 ∷ replicate 172 7

abbrev polls : List Event
polls = polled true true (some logon_bytes) ∷ polled false false none ∷ advised true ∷ []

get_serialization-offers_example :
    get_serialization 0 4 true (run true polls) ≡ submission 0 4 (offers true polls).token
get_serialization-offers_example = get_serialization-offers true polls 0 4

submitted : (get_serialization 0 4 true (run true polls)).bytes ≡ some logon_bytes
unfolding get_serialization fetch_auth_state thread_turn advise from_le
submitted = refl

get_serialization-IsWellFormed_example : IsWellFormed logon_bytes
get_serialization-IsWellFormed_example =
    get_serialization-IsWellFormed true polls 0 4 logon_bytes submitted

abbrev at_noon : Surroundings
at_noon = record { now = 1000; random = none; unset = replicate 16 0; agent_connected = true }

abbrev lock_it : FrameHeader
lock_it = record default_header { message_type = opcode lock_request; message_id = 12 }

handle_ipc_message-NoToken_example :
    All NoToken
      (handle_network_frame records verifies at_noon 5 lock_it phone (new_service 0 one_phone)).1
    × All NoToken (handle_ipc_message probe (new_service 0 one_phone)).1
    × (handle_ipc_message probe (new_service 0 one_phone)
        ≡ (counted (new_service 0 one_phone), logged service_fault ∷ []))
handle_ipc_message-NoToken_example =
    handle_ipc_message-NoToken records verifies at_noon 5 lock_it phone probe
      (new_service 0 one_phone)
