-- ===== src/Tests/AuthRuns.antt =====
-- The AuthenticationManager at a concrete phone: a handshake, a lockout, a replayed answer.
use pc_unlock_project.Common.{
  bytes_eq, le_bytes, from_le, ◌≡◌, ◌≢◌, ◌↔◌, refl, true, false, ◌++◌, List, [], ◌∷◌, none, some,
  Bytes, take, length, arith, codes,
}
use pc_unlock_project.Common.Assoc.{find, bytes_Eq}
use pc_unlock_project.Protocol.Frame.{default_header}
use pc_unlock_project.Protocol.SignedMessage.{
  SignedMessage, serialize_signed_message, deserialize_signed_message,
}
use pc_unlock_project.Protocol.SignedMessage.Codec.{deserialize_signed_message-serialize}
use pc_unlock_project.Protocol.Types.{byteswap}
use pc_unlock_project.Text.Hex.{bytes_to_hex, byte_hex}
use pc_unlock_project.Pairing.Identity.{device_id_to_string}
use pc_unlock_project.Pairing.Record.{DeviceRecord}
use pc_unlock_project.Auth.Types.{AuthState, success, initial_state, ActiveChallenge, RateLimits}
use pc_unlock_project.Auth.Limits.{is_rate_limited}
use pc_unlock_project.Auth.Limits.Laws.{AllBounded}
use pc_unlock_project.Auth.Request.{handle_auth_request}
use pc_unlock_project.Auth.Response.{handle_auth_response}
use pc_unlock_project.Auth.Response.Laws.{Accepts, handle_auth_response-success_iff}
use pc_unlock_project.Auth.Replay.{
  Call, requests, responds, Distinct, accepted_sessions, accepted_sessions-Distinct,
}
use pc_unlock_project.Auth.Lockout.{handle_auth_response-AllBounded}
use pc_unlock_project.Auth.Handshake.{Grants, Answers, handshake}
use pc_unlock_project.Tests.Samples.{
  phone, phone_text, phone_record, records, one_phone, verifies, good_signature, nonce, answer,
  request,
}
use pc_unlock_project.Tests.Codecs.{answer-FitsMessage, answer_passes}

abbrev payload : Bytes
payload = serialize_signed_message answer ++ good_signature

phone_is : device_id_to_string phone ≡ phone_text
unfolding device_id_to_string bytes_to_hex byte_hex
phone_is = refl

-- A request, its answer, and the answer once more.
abbrev replayed : List (Call records verifies)
replayed =
    requests 1000 (some nonce) phone request default_header
    ∷ responds 2000 request payload
    ∷ responds 3000 request payload
    ∷ []

accepted_sessions-Distinct_example :
    Distinct (accepted_sessions records verifies initial_state one_phone replayed)
accepted_sessions-Distinct_example =
    accepted_sessions-Distinct records verifies one_phone replayed (omega arith)

handle_auth_response-success_iff_example :
    ((handle_auth_response records verifies 2000 request payload initial_state one_phone).code
      ≡ success)
    ↔ ((m : SignedMessage) × (r : DeviceRecord) × (c : ActiveChallenge) × Accepts records verifies
          2000 payload initial_state one_phone m r c)
handle_auth_response-success_iff_example =
    handle_auth_response-success_iff records verifies 2000 request payload initial_state one_phone

phone-Grants : Grants records 1000 (some nonce) phone initial_state one_phone phone_record nonce
unfolding is_rate_limited find phone_is device_id_to_string bytes_to_hex byte_hex bytes_eq
phone-Grants = record { allowed = refl; known = refl; active = refl; keyed = λ e. cc; drawn = refl }

phone-Answers :
    Answers records verifies phone initial_state phone_record nonce answer good_signature
unfolding bytes_eq
phone-Answers = record {
  fits = answer-FitsMessage;
  accepted = answer_passes;
  names = refl;
  same_session = refl;
  same_nonce = refl;
  size = refl;
  verified = refl;
}

handshake_example :
    let issued =
      handle_auth_request records 1000
        (some nonce)
        phone
        request
        default_header
        initial_state
        one_phone in
    (issued.code ≡ success)
    × ((handle_auth_response records verifies 31000 request payload issued.state issued.store).code
        ≡ success)
handshake_example =
    handshake records verifies 1000 31000 (some nonce) phone request default_header request
      initial_state one_phone phone_record nonce answer good_signature phone-Grants phone-Answers
      (omega arith) (omega arith)

abbrev locked_limits : RateLimits
locked_limits = (phone_text, record { failed_count = 3; lockout_until_ms = 905000 }) ∷ []

abbrev locked_state : AuthState
locked_state = record initial_state { rate_limits = locked_limits }

is_locked : (is_rate_limited (device_id_to_string phone) 6000 locked_limits).0 ≡ true
unfolding is_rate_limited find bytes_eq device_id_to_string bytes_to_hex byte_hex
is_locked = refl

answer_read : deserialize_signed_message (take 88 payload) ≡ some answer
unfolding serialize_signed_message le_bytes byteswap from_le
answer_read = deserialize_signed_message-serialize answer answer-FitsMessage answer_passes

payload_size : length payload ≡ 152
unfolding serialize_signed_message le_bytes
payload_size = refl

locked_limits-AllBounded : AllBounded locked_limits
unfolding find
locked_limits-AllBounded k l e = ground arith

handle_auth_response-AllBounded_example :
    AllBounded
      (handle_auth_response records verifies 906000 request payload locked_state
        one_phone).state.rate_limits
handle_auth_response-AllBounded_example =
    handle_auth_response-AllBounded records verifies 906000 request payload locked_state one_phone
      (omega arith) locked_limits-AllBounded

other_text : device_id_to_string answer.device_identity ≢ codes "other"
unfolding device_id_to_string bytes_to_hex byte_hex
other_text e = absurd (ground arith)

abbrev no_limits : RateLimits
no_limits = []

nothing_found : find phone_text no_limits ≡ none
unfolding find
nothing_found = refl

abbrev issued_challenge : ActiveChallenge
issued_challenge = record {
  device_id = phone;
  session_id = 1;
  nonce = nonce;
  created_at_ms = 1000;
  is_consumed = false;
}
