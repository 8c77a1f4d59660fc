-- ===== src/Auth/Handshake.antt =====
-- A request and its answer together: the challenge that is sent, and the response that meets it.
use pc_unlock_project.Common.{
  ℕ, ◌+◌, ◌≤◌, ◌≡◌, ◌≢◌, refl, Bool, true, false, ◌++◌, List, [], Option, some, Bytes, length, ap,
  bytes_eq_iff, arith, take-append, drop-append, length-append,
}
use pc_unlock_project.Common.Assoc.{find, insert, bytes_Eq, find-insert}
use pc_unlock_project.Protocol.Frame.{FrameHeader}
use pc_unlock_project.Protocol.SignedMessage.{
  SignedMessage, serialize_signed_message, is_rejected_message,
}
use pc_unlock_project.Protocol.SignedMessage.Layout.{FitsMessage}
use pc_unlock_project.Protocol.SignedMessage.Codec.{
  length-serialize_signed_message, deserialize_signed_message-serialize,
}
use pc_unlock_project.Pairing.Identity.{DeviceId, device_id_to_string}
use pc_unlock_project.Pairing.Record.{DeviceRecord, Devices, status_active}
use pc_unlock_project.Auth.Types.{AuthState, success, ActiveChallenge}
use pc_unlock_project.Auth.Limits.{is_rate_limited}
use pc_unlock_project.Auth.Limits.Laws.{is_rate_limited-cleared}
use pc_unlock_project.Auth.Request.{handle_auth_request, admit_request, issue_challenge}
use pc_unlock_project.Auth.Response.{handle_auth_response}
use pc_unlock_project.Auth.Response.Laws.{handle_auth_response-success_iff}

-- The conditions for a challenge.
pub record Grants (E : Devices) (now : ℕ) (random : Option Bytes) (id : DeviceId) (s : AuthState)
    (store : E.Store) (r : DeviceRecord) (nonce : Bytes) : Type 0 where
  pub allowed : (is_rate_limited (device_id_to_string id) now s.rate_limits).0 ≡ false
  pub known : E.read_device_record (device_id_to_string id) store ≡ some r
  pub active : r.pair_status ≡ status_active
  pub keyed : r.public_key ≢ []
  pub drawn : random ≡ some nonce

module _ (E : Devices) where
  admitted :
      (now : ℕ) (random : Option Bytes) (id : DeviceId) (request out : FrameHeader) (s : AuthState)
      (store : E.Store) (r : DeviceRecord) (nonce : Bytes)
      → E.read_device_record (device_id_to_string id) store ≡ some r
      → r.pair_status ≡ status_active
      → r.public_key ≢ []
      → random ≡ some nonce
      → admit_request E now random id request out s store
        ≡ issue_challenge now (some nonce) id request out s store
  unfolding admit_request
  admitted now random id request out s store r nonce e a k d = ground arith

  -- A request whose conditions hold gets a challenge, and the state after it is known.
  granted :
      (now : ℕ) (random : Option Bytes) (id : DeviceId) (request out : FrameHeader) (s : AuthState)
      (store : E.Store) (r : DeviceRecord) (nonce : Bytes)
      → Grants E now random id s store r nonce
      → handle_auth_request E now random id request out s store
        ≡ issue_challenge now
            (some nonce)
            id
            request
            out
            (record s {
              rate_limits = (is_rate_limited (device_id_to_string id) now s.rate_limits).1;
            })
            store
  unfolding handle_auth_request
  granted now random id request out s store r nonce g =
      rw g.allowed
        (admitted now random id request out _ store r nonce g.known g.active g.keyed g.drawn)

-- The challenge that a granted request leaves for the device.
challenge_of : ℕ → DeviceId → AuthState → Bytes → ActiveChallenge
challenge_of now id s nonce = record {
  device_id = id;
  session_id = s.session_counter;
  nonce = nonce;
  created_at_ms = now;
  is_consumed = false;
}

find_issued :
    (id : Bytes) (c : ActiveChallenge) (m : List (Bytes × ActiveChallenge))
    → find id (insert id c m) ≡ some c
find_issued id c m = ground (arith, find-insert id id c m, bytes_eq_iff id id)

module _ (E : Devices) (verify : Bytes → SignedMessage → Bytes → Bool) where
  -- The phone's answer to a challenge: the message is well formed, names the device, and carries
  -- the session number and the nonce of the challenge; 64 bytes of signature follow, which verify.
  pub record Answers (id : DeviceId) (s : AuthState) (r : DeviceRecord) (nonce : Bytes)
      (m : SignedMessage) (signature : Bytes) : Type 0 where
    pub fits : FitsMessage m
    pub accepted : is_rejected_message m ≡ false
    pub names : m.device_identity ≡ id
    pub same_session : m.session_id ≡ s.session_counter
    pub same_nonce : m.nonce ≡ nonce
    pub size : length signature ≡ 64
    pub verified : verify r.public_key m signature ≡ true

  -- The protocol completes: after a request that gets a challenge, the phone's answer within 30
  -- seconds gets SUCCESS.
  pub handshake :
      (now later : ℕ) (random : Option Bytes) (id : DeviceId) (request out response : FrameHeader)
      (s : AuthState) (store : E.Store) (r : DeviceRecord) (nonce : Bytes) (m : SignedMessage)
      (signature : Bytes)
      → Grants E now random id s store r nonce
      → Answers id s r nonce m signature
      → now ≤ later
      → later ≤ now + 30000
      → let issued = handle_auth_request E now random id request out s store in
        (issued.code ≡ success)
        × ((handle_auth_response E verify later response
              (serialize_signed_message m ++ signature)
              issued.state
              issued.store).code
            ≡ success)
  unfolding issue_challenge challenge_of
  handshake now later random id request out response s store r nonce m signature g a begun in_time =
      let text = device_id_to_string id in
      let n : length (serialize_signed_message m) ≡ 88 = length-serialize_signed_message m a.fits in
      let same_text : device_id_to_string m.device_identity ≡ text =
        ap device_id_to_string a.names in
      let payload = serialize_signed_message m ++ signature in
      rw (granted E now random id request out s store r nonce g) (
        refl,
        (handle_auth_response-success_iff E verify later response payload _ store).1 (
          m,
          r,
          challenge_of now id s nonce,
          record {
            size = omega (arith, n, a.size, length-append (serialize_signed_message m) signature);
            parsed =
                rw (take-append 88 (serialize_signed_message m) signature n)
                  (deserialize_signed_message-serialize m a.fits a.accepted);
            allowed = rw same_text (is_rate_limited-cleared text now later s.rate_limits g.allowed);
            known = rw same_text g.known;
            active = g.active;
            keyed = g.keyed;
            matches = record {
              stored =
                  rw same_text (find_issued text (challenge_of now id s nonce) s.active_challenges);
              unused = refl;
              begun = begun;
              in_time = in_time;
              same_session = a.same_session;
              same_nonce = a.same_nonce;
              verified = rw (drop-append 88 (serialize_signed_message m) signature n) a.verified;
            };
          },
        ),
      )
