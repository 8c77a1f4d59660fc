-- ===== src/Network/Clients.antt =====
-- windows/network/NetworkEngine.cpp: `CleanupStaleSessions`, and which clients `BroadcastFrame` sends
-- to. The map of clients is a list of pairs, in the order of its iterators.
use pc_unlock_project.Common.{
  ℕ, ◌+◌, ◌-◌, ◌%◌, ◌^◌, ◌<◌, ◌≤◌, ◌≡◌, refl, Bool, true, false, not, ltb, leb, if◌then◌else◌, List,
  [], ◌∷◌, map, Option, none, some, All, arith, Bool-cases, inl, inr,
}

pub data ConnectionState : Type 0 where
  disconnected tcp_connecting tls_handshake active_session reconnecting error_state :
      ConnectionState

pub record ClientSession : Type 0 where
  pub socket : Option ℕ  -- none is INVALID_SOCKET
  pub state : ConnectionState
  pub last_active_timestamp_ms : ℕ  -- DWORD

abbrev pub Clients : Type 0
Clients = List (ℕ × ClientSession)

-- Milliseconds between two readings of the 32-bit clock.
abbrev pub elapsed : ℕ → ℕ → ℕ
elapsed now then' = (now + 2 ^ 32 - then') % 2 ^ 32

abbrev pub is_stale : ℕ → ClientSession → Bool
is_stale now s = ltb 30000 (elapsed now s.last_active_timestamp_ms)

abbrev pub push_socket : Option ℕ → List ℕ → List ℕ
push_socket none sockets = sockets
push_socket (some s) sockets = s ∷ sockets

-- The clients that stay, and the sockets that are closed.
unfoldable pub cleanup_stale_sessions : ℕ → Clients → Clients × List ℕ
cleanup_stale_sessions now [] = ([], [])
cleanup_stale_sessions now (c ∷ cs) =
    let rest = cleanup_stale_sessions now cs in
    if is_stale now c.1 then (rest.0, push_socket c.1.socket rest.1) else (c ∷ rest.0, rest.1)

abbrev pub is_active_session : ConnectionState → Bool
is_active_session active_session = true
is_active_session _ = false

-- The clients that a broadcast goes to.
unfoldable pub broadcast_targets : Clients → List ℕ
broadcast_targets [] = []
broadcast_targets (c ∷ cs) =
    let rest = broadcast_targets cs in if is_active_session c.1.state then c.0 ∷ rest else rest

-- A client with the time of its last activity on a clock that does not wrap.
pub record TimedClient : Type 0 where
  pub id : ℕ
  pub socket : Option ℕ
  pub state : ConnectionState
  pub last_active_ms : ℕ

-- What the map holds of it.
abbrev pub stored : TimedClient → ℕ × ClientSession
stored c = (
  c.id,
  record {
    socket = c.socket;
    state = c.state;
    last_active_timestamp_ms = c.last_active_ms % 2 ^ 32;
  },
)

-- The clients that were active in the last 30 seconds before `time`, and the sockets of the others.
unfoldable pub active_clients : ℕ → List TimedClient → List TimedClient
active_clients time [] = []
active_clients time (c ∷ cs) =
    let rest = active_clients time cs in
    if leb time (c.last_active_ms + 30000) then c ∷ rest else rest

unfoldable pub silent_sockets : ℕ → List TimedClient → List ℕ
silent_sockets time [] = []
silent_sockets time (c ∷ cs) =
    let rest = silent_sockets time cs in
    if leb time (c.last_active_ms + 30000) then rest else push_socket c.socket rest

-- The activity lies in the past, by less than the clock's period of 49.7 days.
abbrev pub IsRecent : ℕ → TimedClient → Type 0
IsRecent time c = (c.last_active_ms ≤ time) × (time < c.last_active_ms + 2 ^ 32)

elapsed-mod :
    (time before : ℕ)
    → before ≤ time
    → time < before + 2 ^ 32
    → elapsed (time % 2 ^ 32) (before % 2 ^ 32) ≡ time - before
elapsed-mod time before past near = omega arith

is_stale-stored :
    (time : ℕ) (c : TimedClient)
    → IsRecent time c
    → is_stale (time % 2 ^ 32) (stored c).1 ≡ not (leb time (c.last_active_ms + 30000))
is_stale-stored time c (past, near) =
    rw (elapsed-mod time c.last_active_ms past near) (ground arith)

-- The removal of stale clients with its 32-bit clock does what one on a clock that does not wrap does:
-- exactly the clients that were active in the last 30 seconds stay, in their order, and exactly the
-- sockets of the others are closed. All activity lies in the past, by less than 2^32 milliseconds.
pub cleanup_stale_sessions_lem :
    (time : ℕ) (clients : List TimedClient)
    → All (IsRecent time) clients
    → cleanup_stale_sessions (time % 2 ^ 32) (map stored clients)
      ≡ (map stored (active_clients time clients), silent_sockets time clients)
unfolding cleanup_stale_sessions active_clients silent_sockets
cleanup_stale_sessions_lem time [] recent = refl
cleanup_stale_sessions_lem time (c ∷ cs) (r, rs) =
    elim (Bool-cases (leb time (c.last_active_ms + 30000))) [
      | inl active ↦
          rw (is_stale-stored time c r, active, cleanup_stale_sessions_lem time cs rs) refl
      | inr silent ↦
          rw (is_stale-stored time c r, silent, cleanup_stale_sessions_lem time cs rs) refl
    ]
