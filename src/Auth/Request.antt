-- ===== src/Auth/Request.antt =====
-- authentication/AuthenticationManager.cpp: `HandleAuthRequest`.
use pc_unlock_project.Common.{
  ℕ, ◌+◌, ◌%◌, ◌^◌, false, not, ◌==◌, if◌then◌else◌, [], ◌++◌, Option, none, some, Bytes, codes,
}
use pc_unlock_project.Common.Assoc.{insert, bytes_Eq}
use pc_unlock_project.Protocol.Frame.{FrameHeader}
use pc_unlock_project.Protocol.Types.{
  opcode, auth_failure, auth_challenge, protocol_magic, protocol_major_version,
  protocol_minor_version,
}
use pc_unlock_project.Text.Hex.{bytes_to_hex}
use pc_unlock_project.Text.Decimal.{decimal}
use pc_unlock_project.Pairing.Identity.{DeviceId, device_id_to_string}
use pc_unlock_project.Pairing.Record.{Devices, status_active}
use pc_unlock_project.Auth.Types.{
  AuthState, Reply, AuthResultCode, success, unknown_device, device_revoked, missing_public_key,
  rate_limited, internal_error, ActiveChallenge, next_sequence, size_u32,
}
use pc_unlock_project.Auth.Limits.{is_rate_limited}

abbrev error_payload : Bytes → Bytes
error_payload reason = codes "{\"status\":\"ERROR\",\"reason\":\"" ++ (reason ++ codes "\"}")

-- The challenge for the phone, as JSON.
unfoldable pub challenge_payload : Bytes → ActiveChallenge → Bytes
challenge_payload server_identity c =
    codes "{\"sessionId\":"
    ++ (decimal c.session_id
        ++ (codes ",\"nonce\":\""
            ++ (bytes_to_hex c.nonce
                ++ (codes "\",\"serverIdentity\":\""
                    ++ (bytes_to_hex server_identity
                        ++ (codes "\",\"timestamp\":"
                            ++ (decimal c.created_at_ms ++ codes "}")))))))

-- The request's header answers `out`, which is sent only in part if the request is refused.
unfoldable pub refusal :
    {Store : Type 0}
    → FrameHeader
    → FrameHeader
    → AuthResultCode
    → Bytes
    → AuthState
    → Store
    → Reply Store
refusal request out code reason s store =
    let payload = error_payload reason in
    record {
      state = s;
      store = store;
      code = code;
      header = record out {
        message_type = opcode auth_failure;
        message_id = request.message_id;
        sequence_number = next_sequence request.sequence_number;
        payload_length = size_u32 payload;
      };
      payload = payload;
    }

unfoldable pub challenge_header : FrameHeader → Bytes → FrameHeader
challenge_header request payload = record {
  magic = protocol_magic;
  major_version = protocol_major_version;
  minor_version = protocol_minor_version;
  message_type = opcode auth_challenge;
  reserved = 0;
  message_id = request.message_id;
  payload_length = size_u32 payload;
  sequence_number = next_sequence request.sequence_number;
}

-- The new challenge. The session number is used up before the nonce is drawn.
unfoldable pub issue_challenge :
    {Store : Type 0}
    → ℕ
    → Option Bytes
    → DeviceId
    → FrameHeader
    → FrameHeader
    → AuthState
    → Store
    → Reply Store
issue_challenge now random id request out s store =
    let used = record s { session_counter = (s.session_counter + 1) % 2 ^ 64 } in
    elim random [
      | none ↦ refusal request out internal_error (codes "INTERNAL_ERROR") used store
      | some nonce ↦
          let c : ActiveChallenge = record {
            device_id = id;
            session_id = s.session_counter;
            nonce = nonce;
            created_at_ms = now;
            is_consumed = false;
          } in
          let payload = challenge_payload s.server_identity c in
          record {
            state = record used {
              active_challenges = insert (device_id_to_string id) c s.active_challenges;
            };
            store = store;
            code = success;
            header = challenge_header request payload;
            payload = payload;
          }
    ]

module _ (E : Devices) where
  unfoldable pub admit_request :
      ℕ → Option Bytes → DeviceId → FrameHeader → FrameHeader → AuthState → E.Store → Reply E.Store
  admit_request now random id request out s store =
      elim (E.read_device_record (device_id_to_string id) store) [
        | none ↦ refusal request out unknown_device (codes "UNKNOWN_DEVICE") s store
        | some r ↦
            if not (r.pair_status == status_active)
            then refusal request out device_revoked (codes "DEVICE_REVOKED") s store
            else elim r.public_key [
              | [] ↦ refusal request out missing_public_key (codes "MISSING_PUBLIC_KEY") s store
              | _ ↦ issue_challenge now random id request out s store
            ]
      ]

  -- `random` is what the system's generator would write into the nonce, `out` the caller's header.
  unfoldable pub handle_auth_request :
      ℕ → Option Bytes → DeviceId → FrameHeader → FrameHeader → AuthState → E.Store → Reply E.Store
  handle_auth_request now random id request out s store =
      let (limited, limits) = is_rate_limited (device_id_to_string id) now s.rate_limits in
      let checked = record s { rate_limits = limits } in
      if limited
      then refusal request out rate_limited (codes "RATE_LIMITED") checked store
      else admit_request now random id request out checked store
