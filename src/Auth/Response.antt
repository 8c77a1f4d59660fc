-- ===== src/Auth/Response.antt =====
-- authentication/AuthenticationManager.cpp: `HandleAuthResponse`.
pub mod Laws
pub mod Cases
use pc_unlock_project.Common.{
  ℕ, ◌+◌, ◌-◌, ◌*◌, ◌%◌, ◌^◌, Bool, true, false, not, ◌||◌, ltb, ◌==◌, if◌then◌else◌, List, [], ◌∷◌,
  ◌++◌, Option, none, some, Bytes, codes, bytes_eq, length, take, drop,
}
use pc_unlock_project.Common.Assoc.{find, insert, bytes_Eq}
use pc_unlock_project.Protocol.Frame.{FrameHeader}
use pc_unlock_project.Protocol.SignedMessage.{SignedMessage, deserialize_signed_message}
use pc_unlock_project.Protocol.Types.{
  opcode, auth_failure, auth_success, protocol_magic, protocol_major_version,
  protocol_minor_version, canonical_signed_message_size,
}
use pc_unlock_project.Pairing.Identity.{DeviceId, device_id_to_string}
use pc_unlock_project.Pairing.Record.{DeviceRecord, Devices, status_active}
use pc_unlock_project.Auth.Types.{
  AuthState, Reply, AuthResultCode, success, unknown_device, device_revoked, missing_public_key,
  invalid_payload, challenge_expired, challenge_mismatch, replay_detected, signature_invalid,
  rate_limited, ActiveChallenge, next_sequence, size_u32, challenge_ttl_seconds,
}
use pc_unlock_project.Auth.Limits.{is_rate_limited, record_failure, record_success}

-- crypto/CryptoManager.h
abbrev pub p1363_signature_size : ℕ
p1363_signature_size = 64

abbrev failure_payload : Bytes → Bytes
failure_payload reason = codes "{\"status\":\"FAILURE\",\"reason\":\"" ++ (reason ++ codes "\"}")

abbrev success_payload : Bytes → Bytes
success_payload sid = codes "{\"status\":\"SUCCESS\",\"accountSid\":\"" ++ (sid ++ codes "\"}")

-- The members that every answer has, and the payload's length.
unfoldable pub response_header : FrameHeader → ℕ → Bytes → FrameHeader
response_header request type payload = record {
  magic = protocol_magic;
  major_version = protocol_major_version;
  minor_version = protocol_minor_version;
  message_type = type;
  reserved = 0;
  message_id = request.message_id;
  payload_length = size_u32 payload;
  sequence_number = next_sequence request.sequence_number;
}

abbrev pub response_failure :
    {Store : Type 0} → FrameHeader → AuthResultCode → Bytes → AuthState → Store → Reply Store
response_failure request code reason s store = record {
  state = s;
  store = store;
  code = code;
  header = response_header request (opcode auth_failure) (failure_payload reason);
  payload = failure_payload reason;
}

-- `RecordFailure` of the device `id`.
abbrev pub failed : Bytes → ℕ → AuthState → AuthState
failed id now s = record s { rate_limits = record_failure id now s.rate_limits }

-- `challenge.isConsumed = true` through the reference into the map.
abbrev pub consume : Bytes → ActiveChallenge → AuthState → AuthState
consume id c s = record s {
  active_challenges = insert id (record c { is_consumed = true }) s.active_challenges;
}

abbrev pub is_expired : ℕ → ActiveChallenge → Bool
is_expired now c =
    ltb now c.created_at_ms || ltb (challenge_ttl_seconds * 1000) (now - c.created_at_ms)

module _ (E : Devices) (verify : Bytes → SignedMessage → Bytes → Bool) where
  -- `id` is the device's text, `r` its record; the challenge is consumed before the signature is
  -- verified.
  unfoldable pub check_signature :
      ℕ
      → FrameHeader
      → Bytes
      → DeviceRecord
      → SignedMessage
      → Bytes
      → AuthState
      → E.Store
      → Reply E.Store
  check_signature now request id r m signature s store =
      if not (verify r.public_key m signature)
      then response_failure request signature_invalid (codes "SIGNATURE_VERIFICATION_FAILED")
          (failed id now s) store
      else record {
        state = record s { rate_limits = record_success id s.rate_limits };
        store = E.update_last_seen id store;
        code = success;
        header = response_header request (opcode auth_success) (success_payload r.account_sid);
        payload = success_payload r.account_sid;
      }

  unfoldable pub match_challenge :
      ℕ
      → FrameHeader
      → Bytes
      → DeviceRecord
      → SignedMessage
      → Bytes
      → AuthState
      → E.Store
      → Reply E.Store
  match_challenge now request id r m signature s store = elim (find id s.active_challenges) [
    | none ↦
        response_failure request replay_detected (codes "NO_ACTIVE_CHALLENGE") (failed id now s)
          store
    | some c ↦
        if c.is_consumed
        then response_failure request replay_detected (codes "CHALLENGE_ALREADY_CONSUMED")
            (failed id now s) store
        else if is_expired now c
        then response_failure request challenge_expired (codes "NONCE_EXPIRED")
            (failed id now (consume id c s)) store
        else if not (m.session_id == c.session_id)
        then response_failure request challenge_mismatch (codes "SESSION_ID_MISMATCH")
            (failed id now (consume id c s)) store
        else if not (bytes_eq m.nonce c.nonce)
        then response_failure request challenge_mismatch (codes "NONCE_MISMATCH")
            (failed id now (consume id c s)) store
        else check_signature now request id r m signature (consume id c s) store
  ]

  unfoldable pub check_device :
      ℕ → FrameHeader → Bytes → SignedMessage → Bytes → AuthState → E.Store → Reply E.Store
  check_device now request id m signature s store = elim (E.read_device_record id store) [
    | none ↦
        response_failure request unknown_device (codes "UNKNOWN_DEVICE") (failed id now s) store
    | some r ↦
        if not (r.pair_status == status_active)
        then response_failure request device_revoked (codes "DEVICE_REVOKED") (failed id now s)
            store
        else elim r.public_key [
          | [] ↦
              response_failure request missing_public_key (codes "MISSING_PUBLIC_KEY")
                (failed id now s) store
          | _ ↦ match_challenge now request id r m signature s store
        ]
  ]

  unfoldable pub answer_message :
      ℕ → FrameHeader → SignedMessage → Bytes → AuthState → E.Store → Reply E.Store
  answer_message now request m signature s store =
      let id = device_id_to_string m.device_identity in
      let (limited, limits) = is_rate_limited id now s.rate_limits in
      let checked = record s { rate_limits = limits } in
      if limited
      then response_failure request rate_limited (codes "RATE_LIMITED") checked store
      else check_device now request id m signature checked store

  unfoldable pub handle_auth_response :
      ℕ → FrameHeader → Bytes → AuthState → E.Store → Reply E.Store
  handle_auth_response now request payload s store =
      if ltb (length payload) (canonical_signed_message_size + p1363_signature_size)
      then response_failure request invalid_payload (codes "INVALID_PAYLOAD_SIZE") s store
      else if not (length payload - canonical_signed_message_size == p1363_signature_size)
      then response_failure request invalid_payload (codes "INVALID_SIGNATURE_LENGTH") s store
      else elim (deserialize_signed_message (take canonical_signed_message_size payload)) [
        | none ↦ response_failure request invalid_payload (codes "INVALID_SIGNED_MESSAGE") s store
        | some m ↦ answer_message now request m (drop canonical_signed_message_size payload) s store
      ]
