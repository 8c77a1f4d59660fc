-- ===== src/Pairing/Manager/State.antt =====
-- windows/pairing/PairingManager.h, PairingManager.cpp: sessions, counts of failures, answers.
use pc_unlock_project.Common.{
  ℕ, ◌+◌, ◌-◌, ◌%◌, ◌^◌, Bool, true, false, ltb, leb, if◌then◌else◌, List, [], ◌∷◌, none, some,
  Bytes, codes,
}
use pc_unlock_project.Common.Assoc.{find, insert, erase, nat_eq, bytes_Eq}
use pc_unlock_project.Protocol.Types.{MessageType, proto_error}
use pc_unlock_project.Pairing.Identity.{DeviceId}
use pc_unlock_project.Pairing.SasPin.{FileTime, to_u64, sas_pin_expired}
use pc_unlock_project.Pairing.Messages.{build_error_payload}

pub data PairingState : Type 0 where
  unpaired pairing_requested waiting_for_sas sas_verified pairing_confirmed : PairingState
  paired expired cancelled failed revoked : PairingState

pub record PairingSession : Type 0 where
  pub device_id : DeviceId
  pub device_name : Bytes
  pub client_ip : Bytes
  pub sas_pin : Bytes
  pub sas_generated_at : FileTime
  pub sas_attempts : ℕ  -- int
  pub state : PairingState
  pub session_client_id : ℕ  -- uint64_t
  pub client_public_key : Bytes

abbrev pub SessionMap : Type 0
SessionMap = List (ℕ × PairingSession)

-- The count of failures and the start of the window.
abbrev pub AttemptMap : Type 0
AttemptMap = List (Bytes × (ℕ × FileTime))

pub record PairingManager : Type 0 where
  pub sessions : SessionMap
  pub rate_limit_map : AttemptMap

-- The calls of the callbacks.
pub data Notice : Type 0 where
  shows_pin : Bytes → Bytes → Notice
  succeeds : DeviceId → Bytes → Bytes → Notice
  fails : Bytes → Notice

pub record PairReply (Store : Type 0) : Type 0 where
  pub manager : PairingManager
  pub store : Store
  pub type : MessageType
  pub payload : Bytes
  pub notices : List Notice

-- The error codes of the protocol that are sent.
abbrev pub malformed_header : ℕ
malformed_header = 5

abbrev pub unauthorized : ℕ
unauthorized = 6

abbrev pub error_rate_limited : ℕ
error_rate_limited = 10

abbrev pub error_internal : ℕ
error_internal = 99

-- Five failures within a minute of the window's start; the difference of the times wraps.
unfoldable pub is_attempt_limited : Bytes → FileTime → AttemptMap → Bool
is_attempt_limited id now m = elim (find id m) [
  | none ↦ false
  | some (count, start) ↦
      if ltb 600000000 ((to_u64 now + 2 ^ 64 - to_u64 start) % 2 ^ 64) then false else leb 5 count
]

unfoldable pub record_failed_attempt : Bytes → FileTime → AttemptMap → AttemptMap
record_failed_attempt id now m = elim (find id m) [
  | none ↦ insert id (1, now) m
  | some (count, start) ↦ insert id (count + 1, start) m
]

unfoldable pub clear_failed_attempts : Bytes → AttemptMap → AttemptMap
clear_failed_attempts id m = erase id m

unfoldable pub clear_session : ℕ → SessionMap → SessionMap
clear_session client m = erase client m

-- An answer with PROTO_ERROR.
abbrev pub pair_error :
    {Store : Type 0} → ℕ → Bytes → List Notice → PairingManager → Store → PairReply Store
pair_error code message notices p store = record {
  manager = p;
  store = store;
  type = proto_error;
  payload = build_error_payload code message;
  notices = notices;
}

unfoldable pub has_active_pairing_session : ℕ → PairingManager → Bool
has_active_pairing_session client p = elim (find client p.sessions) [ none ↦ false | some s ↦ true ]

unfoldable pub cancel_pairing_session : ℕ → PairingManager → PairingManager × List Notice
cancel_pairing_session client p = (
  record p { sessions = clear_session client p.sessions },
  fails (codes "Pairing cancelled") ∷ [],
)

unfoldable pub expire_sessions : FileTime → SessionMap → SessionMap
expire_sessions now [] = []
expire_sessions now ((client, s) ∷ m) =
    let rest = expire_sessions now m in
    if sas_pin_expired now s.sas_generated_at then rest else (client, s) ∷ rest

unfoldable pub expire_stale_sessions : FileTime → PairingManager → PairingManager
expire_stale_sessions now p = record p { sessions = expire_sessions now p.sessions }

unfoldable pub get_session_state : ℕ → PairingManager → PairingState
get_session_state client p = elim (find client p.sessions) [ none ↦ unpaired | some s ↦ s.state ]
