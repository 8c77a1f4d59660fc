-- ===== src/Tests/Networks.antt =====
-- The theorems on connections at a short stream and at clock readings around the wrap.
use pc_unlock_project.Common.{
  ℕ, ◌≡◌, refl, ◌++◌, ◌%◌, ◌^◌, map, true, false, List, [], ◌∷◌, some, Bytes, arith, codes,
  bytes_eq,
}
use pc_unlock_project.Common.Assoc.{find, bytes_Eq}
use pc_unlock_project.Protocol.Types.{opcode, ping, auth_request}
use pc_unlock_project.Protocol.Frame.{default_header}
use pc_unlock_project.Network.Stream.{Frame, drain, receive}
use pc_unlock_project.Network.Stream.Chunks.{before_all, receive-append}
use pc_unlock_project.Network.Clients.{
  ClientSession, Clients, active_session, tls_handshake, cleanup_stale_sessions, TimedClient,
  stored, active_clients, silent_sockets, cleanup_stale_sessions_lem,
}
use pc_unlock_project.Network.Attempts.{RateLimitTable, check_rate_limit, check_rate_limit-wraps}

abbrev ping_frame : Frame
ping_frame =
    (record default_header { message_type = opcode ping; payload_length = 3 }, 7 ∷ 8 ∷ 9 ∷ [])

abbrev empty_frame : Frame
empty_frame = (record default_header { message_type = opcode auth_request; message_id = 5 }, [])

abbrev two_frames : List Frame
two_frames = ping_frame ∷ empty_frame ∷ []

-- The first read ends within the payload of the first frame.
abbrev first_read : Bytes
first_read = 77 ∷ 85 ∷ 1 ∷ 0 ∷ 0 ∷ []

first_waits : (receive [] first_read).is_open ≡ true
unfolding receive drain
first_waits = refl

receive-append_example :
    receive [] (first_read ++ (224 ∷ []))
    ≡ before_all (receive [] first_read).frames (receive (receive [] first_read).buffer (224 ∷ []))
receive-append_example = receive-append [] first_read (224 ∷ []) first_waits

abbrev address : Bytes
address = codes "10.0.0.7"

-- Five attempts since the clock showed `t`.
abbrev five : ℕ → RateLimitTable
five t = (address, record { first_attempt_ms = t; attempt_count = 5; blocked_until_ms = 0 }) ∷ []

-- The clock wraps 867,296 milliseconds after 4294100000.
check_rate_limit-wraps_example :
    ((check_rate_limit address 4294100000 (five 4294099000)).0 ≡ false)
    × ((check_rate_limit address 4294200000
          (check_rate_limit address 4294100000 (five 4294099000)).1).0
        ≡ true)
    × ((check_rate_limit address 1000 (check_rate_limit address 4294100000 (five 4294099000)).1).0
        ≡ false)
unfolding find bytes_eq
check_rate_limit-wraps_example =
    check_rate_limit-wraps address 4294100000 4294200000 1000
      (record { first_attempt_ms = 4294099000; attempt_count = 5; blocked_until_ms = 0 })
      (five 4294099000) refl refl (omega arith) (omega arith) (omega arith) (omega arith)
      (omega arith) (omega arith) (omega arith) (omega arith)

abbrev old_client : ClientSession
old_client = record { socket = some 3; state = tls_handshake; last_active_timestamp_ms = 1000 }

abbrev new_client : ClientSession
new_client = record { socket = some 4; state = active_session; last_active_timestamp_ms = 30000 }

abbrev two_clients : Clients
two_clients = (1, old_client) ∷ (2, new_client) ∷ []

-- The clock wrapped between the activity of the first client and that of the second.
abbrev silent_client : TimedClient
silent_client = record {
  id = 1;
  socket = some 3;
  state = tls_handshake;
  last_active_ms = 4294960000;
}

abbrev active_client : TimedClient
active_client = record {
  id = 2;
  socket = some 4;
  state = active_session;
  last_active_ms = 4294970000;
}

cleanup_stale_sessions_lem_example :
    cleanup_stale_sessions (4295000000 % 2 ^ 32) (map stored (silent_client ∷ active_client ∷ []))
    ≡ (
      map stored (active_clients 4295000000 (silent_client ∷ active_client ∷ [])),
      silent_sockets 4295000000 (silent_client ∷ active_client ∷ []),
    )
cleanup_stale_sessions_lem_example =
    cleanup_stale_sessions_lem 4295000000 (silent_client ∷ active_client ∷ [])
      ((omega arith, omega arith), ((omega arith, omega arith), tt))

one_is_closed : (cleanup_stale_sessions 40000 two_clients).1 ≡ 3 ∷ []
unfolding cleanup_stale_sessions
one_is_closed = refl
