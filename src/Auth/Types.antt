-- ===== src/Auth/Types.antt =====
-- windows/authentication/AuthenticationManager.h: constants, result codes and the state.
use pc_unlock_project.Common.{ℕ, ◌+◌, ◌%◌, ◌^◌, Bool, List, [], Bytes, length, replicate}
use pc_unlock_project.Common.Assoc.{insert, bytes_Eq}
use pc_unlock_project.Protocol.Frame.{FrameHeader}
use pc_unlock_project.Pairing.Identity.{DeviceId, device_id_to_string}

abbrev pub challenge_ttl_seconds : ℕ
challenge_ttl_seconds = 30

abbrev pub max_failed_attempts : ℕ
max_failed_attempts = 3

abbrev pub lockout_duration_sec : ℕ
lockout_duration_sec = 900

pub record ActiveChallenge : Type 0 where
  pub device_id : DeviceId
  pub session_id : ℕ  -- uint64_t
  pub nonce : Bytes  -- 32 bytes
  pub created_at_ms : ℕ  -- uint64_t
  pub is_consumed : Bool

pub record DeviceRateLimit : Type 0 where
  pub failed_count : ℕ  -- int
  pub lockout_until_ms : ℕ  -- uint64_t

pub data AuthResultCode : Type 0 where
  success unknown_device device_revoked missing_public_key invalid_payload : AuthResultCode
  challenge_expired challenge_mismatch replay_detected signature_invalid : AuthResultCode
  rate_limited internal_error : AuthResultCode

abbrev pub Challenges : Type 0
Challenges = List (Bytes × ActiveChallenge)

abbrev pub RateLimits : Type 0
RateLimits = List (Bytes × DeviceRateLimit)

-- The members of the manager. Every operation holds its lock from the first line to the last, so a
-- call is one step; the clock is an argument of each call.
pub record AuthState : Type 0 where
  pub server_identity : Bytes  -- 16 bytes
  pub session_counter : ℕ  -- uint64_t
  pub active_challenges : Challenges
  pub rate_limits : RateLimits

-- The constructor.
abbrev pub initial_state : AuthState
initial_state = record {
  server_identity = replicate 16 0xAA;
  session_counter = 1;
  active_challenges = [];
  rate_limits = [];
}

unfoldable pub set_server_identity : Bytes → AuthState → AuthState
set_server_identity id s = record s { server_identity = id }

unfoldable pub reset : AuthState → AuthState
reset s = record s { active_challenges = []; rate_limits = []; session_counter = 1 }

-- The testing hook.
unfoldable pub inject_challenge : ActiveChallenge → AuthState → AuthState
inject_challenge c s = record s {
  active_challenges = insert (device_id_to_string c.device_id) c s.active_challenges;
}

-- What a call leaves behind: the state, the registry, the result and the out parameters.
pub record Reply (Store : Type 0) : Type 0 where
  pub state : AuthState
  pub store : Store
  pub code : AuthResultCode
  pub header : FrameHeader
  pub payload : Bytes

abbrev pub next_sequence : ℕ → ℕ
next_sequence n = (n + 1) % 2 ^ 64

abbrev pub size_u32 : Bytes → ℕ
size_u32 payload = length payload % 2 ^ 32
