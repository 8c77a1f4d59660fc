-- ===== src/Auth/Response/Cases.antt =====
-- The outcomes of `HandleAuthResponse`, as a principle: what holds of each outcome holds of the answer.
use pc_unlock_project.Common.{
  ℕ, ◌-◌, ◌≡◌, refl, Bool, true, false, not, ltb, ◌==◌, some, Bytes, bytes_eq, codes, length, take,
  drop, if_cases, option_cases, list_cases, arith,
}
use pc_unlock_project.Common.Assoc.{find, bytes_Eq}
use pc_unlock_project.Protocol.Frame.{FrameHeader}
use pc_unlock_project.Protocol.SignedMessage.{SignedMessage, deserialize_signed_message}
use pc_unlock_project.Protocol.Types.{opcode, auth_success}
use pc_unlock_project.Pairing.Identity.{device_id_to_string}
use pc_unlock_project.Pairing.Record.{DeviceRecord, Devices, status_active}
use pc_unlock_project.Auth.Types.{
  AuthState, AuthResultCode, Reply, success, unknown_device, device_revoked, missing_public_key,
  challenge_expired, challenge_mismatch, replay_detected, signature_invalid, invalid_payload,
  rate_limited, ActiveChallenge,
}
use pc_unlock_project.Auth.Limits.{is_rate_limited, record_success}
use pc_unlock_project.Auth.Response.{
  handle_auth_response, answer_message, check_device, match_challenge, check_signature, is_expired,
  failed, consume, response_failure, response_header, success_payload,
}

-- The codes of a failure that leaves the challenge alone, and of one that uses it up.
abbrev pub is_refusal : AuthResultCode → Bool
is_refusal unknown_device = true
is_refusal device_revoked = true
is_refusal missing_public_key = true
is_refusal replay_detected = true
is_refusal _ = false

abbrev pub is_spent : AuthResultCode → Bool
is_spent challenge_expired = true
is_spent challenge_mismatch = true
is_spent signature_invalid = true
is_spent _ = false

-- The state after the check for a lockout.
abbrev pub checked : SignedMessage → ℕ → AuthState → AuthState
checked m now s = record s {
  rate_limits = (is_rate_limited (device_id_to_string m.device_identity) now s.rate_limits).1;
}

module _ (E : Devices) (verify : Bytes → SignedMessage → Bytes → Bool) (now : ℕ)
    (request : FrameHeader) (store : E.Store) where
  abbrev pub success_reply : Bytes → DeviceRecord → AuthState → Reply E.Store
  success_reply id r s = record {
    state = record s { rate_limits = record_success id s.rate_limits };
    store = E.update_last_seen id store;
    code = success;
    header = response_header request (opcode auth_success) (success_payload r.account_sid);
    payload = success_payload r.account_sid;
  }

  module _ {ℓ} (P : Reply E.Store → Type ℓ) (id : Bytes) (m : SignedMessage) (s : AuthState)
      (refused : (code : AuthResultCode) (reason : Bytes)
        → is_refusal code ≡ true
        → P (response_failure request code reason (failed id now s) store))
      (spent : (code : AuthResultCode) (reason : Bytes) (c : ActiveChallenge)
        → find id s.active_challenges ≡ some c
        → c.is_consumed ≡ false
        → is_spent code ≡ true
        → P (response_failure request code reason (failed id now (consume id c s)) store))
      (accepted : (r : DeviceRecord) (c : ActiveChallenge)
        → find id s.active_challenges ≡ some c
        → c.is_consumed ≡ false
        → m.session_id ≡ c.session_id
        → P (success_reply id r (consume id c s))) where
    match_cases :
        (r : DeviceRecord) (signature : Bytes)
        → P (match_challenge E verify now request id r m signature s store)
    unfolding match_challenge check_signature
    match_cases r signature =
        option_cases P (find id s.active_challenges) _ _
          (λ e. refused replay_detected (codes "NO_ACTIVE_CHALLENGE") refl)
          (λ c e.
            if_cases P c.is_consumed _ _
              (λ f. refused replay_detected (codes "CHALLENGE_ALREADY_CONSUMED") refl)
              (λ unused.
                if_cases P (is_expired now c) _ _
                  (λ f. spent challenge_expired (codes "NONCE_EXPIRED") c e unused refl)
                  (λ f.
                    if_cases P (not (m.session_id == c.session_id)) _ _
                      (λ g. spent challenge_mismatch (codes "SESSION_ID_MISMATCH") c e unused refl)
                      (λ g.
                        if_cases P (not (bytes_eq m.nonce c.nonce)) _ _
                          (λ h. spent challenge_mismatch (codes "NONCE_MISMATCH") c e unused refl)
                          (λ h.
                            if_cases P (not (verify r.public_key m signature)) _ _
                              (λ v.
                                spent signature_invalid (codes "SIGNATURE_VERIFICATION_FAILED") c e
                                  unused refl)
                              (λ v. accepted r c e unused (ground (arith, g))))))))

    pub device_cases :
        (signature : Bytes) → P (check_device E verify now request id m signature s store)
    unfolding check_device
    device_cases signature =
        option_cases P (E.read_device_record id store) _ _
          (λ e. refused unknown_device (codes "UNKNOWN_DEVICE") refl)
          (λ r e.
            if_cases P (not (r.pair_status == status_active)) _ _
              (λ f. refused device_revoked (codes "DEVICE_REVOKED") refl)
              (λ f.
                list_cases P r.public_key _ _
                  (λ g. refused missing_public_key (codes "MISSING_PUBLIC_KEY") refl)
                  (λ g. match_cases r signature)))

  pub response_cases {ℓ} :
      (P : Reply E.Store → Type ℓ) (payload : Bytes) (s : AuthState)
      → ((reason : Bytes) → P (response_failure request invalid_payload reason s store))
      → ((m : SignedMessage) (reason : Bytes)
          → deserialize_signed_message (take 88 payload) ≡ some m
          → (is_rate_limited (device_id_to_string m.device_identity) now s.rate_limits).0 ≡ true
          → P (response_failure request rate_limited reason (checked m now s) store))
      → ((m : SignedMessage)
          → deserialize_signed_message (take 88 payload) ≡ some m
          → (is_rate_limited (device_id_to_string m.device_identity) now s.rate_limits).0 ≡ false
          → P (
              check_device E verify now request
                (device_id_to_string m.device_identity)
                m
                (drop 88 payload)
                (checked m now s)
                store))
      → P (handle_auth_response E verify now request payload s store)
  unfolding handle_auth_response answer_message
  response_cases P payload s invalid limited answered =
      if_cases P (ltb (length payload) 152) _ _ (λ e. invalid (codes "INVALID_PAYLOAD_SIZE"))
        (λ e.
          if_cases P (not (length payload - 88 == 64)) _ _
            (λ f. invalid (codes "INVALID_SIGNATURE_LENGTH"))
            (λ f.
              option_cases P (deserialize_signed_message (take 88 payload)) _ _
                (λ g. invalid (codes "INVALID_SIGNED_MESSAGE"))
                (λ m g.
                  if_cases P
                    (is_rate_limited (device_id_to_string m.device_identity) now s.rate_limits).0 _
                    _ (λ h. limited m (codes "RATE_LIMITED") g h) (λ h. answered m g h))))
