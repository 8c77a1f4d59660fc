-- ===== src/Auth/Verdicts.antt =====
-- windows/authentication/AuthenticationManager.cpp: the type of an answer's header says what its code
-- says.
use pc_unlock_project.Common.{
  ℕ, ◌≡◌, refl, Bool, false, not, ◌==◌, if◌then◌else◌, Option, none, some, Bytes, take, drop, arith,
  if_cases, option_cases, list_cases,
}
use pc_unlock_project.Protocol.Types.{opcode, auth_success}
use pc_unlock_project.Protocol.Frame.{FrameHeader}
use pc_unlock_project.Protocol.SignedMessage.{SignedMessage, deserialize_signed_message}
use pc_unlock_project.Pairing.Identity.{DeviceId, device_id_to_string}
use pc_unlock_project.Pairing.Record.{Devices, status_active}
use pc_unlock_project.Auth.Types.{AuthState, Reply, success}
use pc_unlock_project.Auth.Limits.{is_rate_limited}
use pc_unlock_project.Auth.Request.{
  handle_auth_request, admit_request, issue_challenge, refusal, challenge_header,
}
use pc_unlock_project.Auth.Response.{handle_auth_response, check_device, response_header}
use pc_unlock_project.Auth.Response.Cases.{device_cases, response_cases, checked}
use pc_unlock_project.Auth.Replay.{session_of, session_of_refusal}

abbrev pub says_success : {Store : Type 0} → Reply Store → Bool
says_success r = r.header.message_type == opcode auth_success

-- The session number of a message, if there is one.
abbrev pub number_of : Option SignedMessage → Option ℕ
number_of none = none
number_of (some m) = some m.session_id

abbrev Agrees : {Store : Type 0} → Option SignedMessage → Reply Store → Type 0
Agrees o r = session_of r.code o ≡ (if says_success r then number_of o else none)

session_of_success : (o : Option SignedMessage) → session_of success o ≡ number_of o
session_of_success none = refl
session_of_success (some m) = refl

module _ (E : Devices) where
  IsQuiet : Reply E.Store → Type 0
  IsQuiet r = says_success r ≡ false

  issue_challenge-IsQuiet :
      (now : ℕ) (random : Option Bytes) (id : DeviceId) (request out : FrameHeader) (s : AuthState)
      (store : E.Store)
      → IsQuiet (issue_challenge now random id request out s store)
  unfolding issue_challenge refusal challenge_header IsQuiet
  issue_challenge-IsQuiet now none id request out s store = refl
  issue_challenge-IsQuiet now (some nonce) id request out s store = refl

  pub handle_auth_request-quiet :
      (now : ℕ) (random : Option Bytes) (id : DeviceId) (request out : FrameHeader) (s : AuthState)
      (store : E.Store)
      → says_success (handle_auth_request E now random id request out s store) ≡ false
  unfolding handle_auth_request admit_request refusal IsQuiet
  handle_auth_request-quiet now random id request out s store =
      let text = device_id_to_string id in
      let (limited, limits) = is_rate_limited text now s.rate_limits in
      let checked = record s { rate_limits = limits } in
      if_cases IsQuiet limited _ _ (λ e. refl)
        (λ e.
          option_cases IsQuiet (E.read_device_record text store) _ _ (λ f. refl)
            (λ r f.
              if_cases IsQuiet (not (r.pair_status == status_active)) _ _ (λ g. refl)
                (λ g.
                  list_cases IsQuiet r.public_key _ _ (λ h. refl)
                    (λ h. issue_challenge-IsQuiet now random id request out checked store))))

module _ (E : Devices) (verify : Bytes → SignedMessage → Bytes → Bool) where
  check_device-Agrees :
      (now : ℕ) (request : FrameHeader) (id : Bytes) (m : SignedMessage) (signature : Bytes)
      (s : AuthState) (store : E.Store)
      → Agrees (some m) (check_device E verify now request id m signature s store)
  unfolding response_header
  check_device-Agrees now request id m signature s store =
      device_cases E verify now request store (Agrees (some m)) id m s
        (λ code reason e. session_of_refusal code (some m) (λ x. ground arith))
        (λ code reason c e unused k. session_of_refusal code (some m) (λ x. ground arith))
        (λ r c e unused eq. refl) signature

  -- The session of an answer is that of the message, if the header says SUCCESS.
  pub handle_auth_response-session :
      (now : ℕ) (request : FrameHeader) (payload : Bytes) (s : AuthState) (store : E.Store)
      → let r = handle_auth_response E verify now request payload s store in
        let o = deserialize_signed_message (take 88 payload) in
        session_of r.code o ≡ (if says_success r then number_of o else none)
  unfolding response_header
  handle_auth_response-session now request payload s store =
      response_cases E verify now request store
        (Agrees (deserialize_signed_message (take 88 payload))) payload s (λ reason. refl)
        (λ m reason e limited. refl)
        (λ m e free. rw e (
          check_device-Agrees now request (device_id_to_string m.device_identity) m
            (drop 88 payload) (checked m now s) store))
