-- ===== src/Auth/Response/Laws.antt =====
-- When `HandleAuthResponse` answers SUCCESS.
use pc_unlock_project.Common.{
  ℕ, ◌+◌, ◌-◌, ◌≤◌, ◌≡◌, ◌≢◌, ◌↔◌, refl, Bool, true, false, not, ltb, ◌==◌, if◌then◌else◌, [],
  Option, none, some, Bytes, bytes_eq_iff, length, take, drop, arith, inl, inr, Option-cases,
}
use pc_unlock_project.Common.Assoc.{find, bytes_Eq}
use pc_unlock_project.Protocol.Frame.{FrameHeader}
use pc_unlock_project.Protocol.SignedMessage.{SignedMessage, deserialize_signed_message}
use pc_unlock_project.Pairing.Identity.{device_id_to_string}
use pc_unlock_project.Pairing.Record.{DeviceRecord, Devices, status_active}
use pc_unlock_project.Auth.Types.{AuthState, success, ActiveChallenge, Challenges, Reply}
use pc_unlock_project.Auth.Limits.{is_rate_limited}
use pc_unlock_project.Auth.Response.{
  handle_auth_response, answer_message, check_device, match_challenge, check_signature,
}

-- The conditions on the challenge and on the signature.
pub record Matches (verify : Bytes → SignedMessage → Bytes → Bool) (now : ℕ)
    (challenges : Challenges) (id : Bytes) (r : DeviceRecord) (m : SignedMessage)
    (signature : Bytes) (c : ActiveChallenge) : Type 0 where
  pub stored : find id challenges ≡ some c
  pub unused : c.is_consumed ≡ false
  pub begun : c.created_at_ms ≤ now
  pub in_time : now ≤ c.created_at_ms + 30000
  pub same_session : m.session_id ≡ c.session_id
  pub same_nonce : m.nonce ≡ c.nonce
  pub verified : verify r.public_key m signature ≡ true

-- All conditions, on the payload, the device and its record, and the challenge.
pub record Accepts (E : Devices) (verify : Bytes → SignedMessage → Bytes → Bool) (now : ℕ)
    (payload : Bytes) (s : AuthState) (store : E.Store) (m : SignedMessage) (r : DeviceRecord)
    (c : ActiveChallenge) : Type 0 where
  pub size : length payload ≡ 152
  pub parsed : deserialize_signed_message (take 88 payload) ≡ some m
  pub allowed :
      (is_rate_limited (device_id_to_string m.device_identity) now s.rate_limits).0 ≡ false
  pub known : E.read_device_record (device_id_to_string m.device_identity) store ≡ some r
  pub active : r.pair_status ≡ status_active
  pub keyed : r.public_key ≢ []
  pub matches :
      Matches verify now s.active_challenges
        (device_id_to_string m.device_identity)
        r
        m
        (drop 88 payload)
        c

sizes : (n : ℕ) → ltb n 152 ≡ false → not (n - 88 == 64) ≡ false → n ≡ 152
sizes n long exact = ground arith

not_refused :
    {Store : Type 0} (b : Bool) (x y : Reply Store)
    → x.code ≢ success
    → (if b then x else y).code ≡ success
    → (b ≡ false) × (y.code ≡ success)
not_refused true x y n h = absurd (n h)
not_refused false x y n h = (refl, h)

of_parsed :
    {Store : Type 0} (o : Option SignedMessage) (x : Reply Store) (y : SignedMessage → Reply Store)
    → x.code ≢ success
    → (elim o as (λ q. Reply Store) [ none ↦ x | some m ↦ y m ]).code ≡ success
    → (m : SignedMessage) × (o ≡ some m) × ((y m).code ≡ success)
of_parsed none x y n h = absurd (n h)
of_parsed (some m) x y n h = (m, refl, h)

module _ (E : Devices) (verify : Bytes → SignedMessage → Bytes → Bool) where
  match_code :
      (now : ℕ) (request : FrameHeader) (id : Bytes) (r : DeviceRecord) (m : SignedMessage)
      (signature : Bytes) (s : AuthState) (store : E.Store) (c : ActiveChallenge)
      → find id s.active_challenges ≡ some c
      → (match_challenge E verify now request id r m signature s store).code ≡ success
      → Matches verify now s.active_challenges id r m signature c
  unfolding match_challenge check_signature
  match_code now request id r m signature s store c e h = record {
    stored = e;
    unused = ground arith;
    begun = ground arith;
    in_time = ground arith;
    same_session = ground arith;
    same_nonce = ground (arith, bytes_eq_iff m.nonce c.nonce);
    verified = ground arith;
  }

  match_success :
      (now : ℕ) (request : FrameHeader) (id : Bytes) (r : DeviceRecord) (m : SignedMessage)
      (signature : Bytes) (s : AuthState) (store : E.Store) (c : ActiveChallenge)
      → Matches verify now s.active_challenges id r m signature c
      → (match_challenge E verify now request id r m signature s store).code ≡ success
  unfolding match_challenge check_signature
  match_success now request id r m signature s store c h = ground (
    arith,
    bytes_eq_iff m.nonce c.nonce,
    h.stored,
    h.unused,
    h.begun,
    h.in_time,
    h.same_session,
    h.same_nonce,
    h.verified,
  )

  device_code :
      (now : ℕ) (request : FrameHeader) (id : Bytes) (m : SignedMessage) (signature : Bytes)
      (s : AuthState) (store : E.Store)
      → (check_device E verify now request id m signature s store).code ≡ success
      → (r : DeviceRecord) × (c : ActiveChallenge) × (E.read_device_record id store ≡ some r)
        × (r.pair_status ≡ status_active)
        × (r.public_key ≢ [])
        × Matches verify now s.active_challenges id r m signature c
  unfolding check_device
  device_code now request id m signature s store h =
      elim (Option-cases (E.read_device_record id store)) [
        | inl none_found ↦ cc
        | inr (r, e) ↦ elim (Option-cases (find id s.active_challenges)) [
          | inl missing ↦ unfold match_challenge in ground arith
          | inr (c, found) ↦ (
            r,
            c,
            e,
            ground arith,
            λ k. ground arith,
            match_code now request id r m signature s store c found (ground arith),
          )
        ]
      ]

  answer_code :
      (now : ℕ) (request : FrameHeader) (m : SignedMessage) (signature : Bytes) (s : AuthState)
      (store : E.Store)
      → (answer_message E verify now request m signature s store).code ≡ success
      → let id = device_id_to_string m.device_identity in
        ((is_rate_limited id now s.rate_limits).0 ≡ false)
        × ((check_device E verify now request id m signature
              (record s { rate_limits = (is_rate_limited id now s.rate_limits).1 })
              store).code
            ≡ success)
  unfolding answer_message
  answer_code now request m signature s store h = ground arith

  parsed_code :
      (now : ℕ) (request : FrameHeader) (payload : Bytes) (s : AuthState) (store : E.Store)
      → (handle_auth_response E verify now request payload s store).code ≡ success
      → (m : SignedMessage) × (length payload ≡ 152)
        × (deserialize_signed_message (take 88 payload) ≡ some m)
        × ((answer_message E verify now request m (drop 88 payload) s store).code ≡ success)
  unfolding handle_auth_response
  parsed_code now request payload s store h =
      let (long, h1) = not_refused (ltb (length payload) 152) _ _ (λ e. cc) h in
      let (exact, h2) = not_refused (not (length payload - 88 == 64)) _ _ (λ e. cc) h1 in
      let (m, e, ok) = of_parsed (deserialize_signed_message (take 88 payload)) _ _ (λ e. cc) h2 in
      (m, sizes (length payload) long exact, e, ok)

  response_code :
      (now : ℕ) (request : FrameHeader) (payload : Bytes) (s : AuthState) (store : E.Store)
      → (handle_auth_response E verify now request payload s store).code ≡ success
      → (m : SignedMessage) × (r : DeviceRecord) × (c : ActiveChallenge) × Accepts E verify now
          payload s store m r c
  response_code now request payload s store h =
      let (m, size, parsed, ok) = parsed_code now request payload s store h in
      let (allowed, passed) = answer_code now request m (drop 88 payload) s store ok in
      let id = device_id_to_string m.device_identity in
      let checked = record s { rate_limits = (is_rate_limited id now s.rate_limits).1 } in
      let (r, c, known, active, keyed, matches) =
        device_code now request id m (drop 88 payload) checked store passed in
      (
        m,
        r,
        c,
        record {
          size = size;
          parsed = parsed;
          allowed = allowed;
          known = known;
          active = active;
          keyed = keyed;
          matches = matches;
        },
      )

  device_success :
      (now : ℕ) (request : FrameHeader) (id : Bytes) (m : SignedMessage) (signature : Bytes)
      (s : AuthState) (store : E.Store) (r : DeviceRecord) (c : ActiveChallenge)
      → E.read_device_record id store ≡ some r
      → r.pair_status ≡ status_active
      → r.public_key ≢ []
      → Matches verify now s.active_challenges id r m signature c
      → (check_device E verify now request id m signature s store).code ≡ success
  unfolding check_device
  device_success now request id m signature s store r c e a k h =
      ground (arith, match_success now request id r m signature s store c h)

  response_success :
      (now : ℕ) (request : FrameHeader) (payload : Bytes) (s : AuthState) (store : E.Store)
      (m : SignedMessage) (r : DeviceRecord) (c : ActiveChallenge)
      → Accepts E verify now payload s store m r c
      → (handle_auth_response E verify now request payload s store).code ≡ success
  unfolding handle_auth_response answer_message
  response_success now request payload s store m r c a =
      let id = device_id_to_string m.device_identity in
      let checked = record s { rate_limits = (is_rate_limited id now s.rate_limits).1 } in
      rw (a.size, a.parsed, a.allowed)
        (device_success now request id m (drop 88 payload) checked store r c a.known a.active
          a.keyed a.matches)

  -- The answer is SUCCESS exactly if the payload consists of a well-formed signed message and 64
  -- bytes of signature, the device is not locked out, its record is there, is active and has a key,
  -- and its challenge was not used, was issued at most 30 seconds ago and not after now, has the
  -- message's session number and nonce, and the signature verifies. Nothing else is tested: the
  -- operation, the server identity, the request number and the timestamp of the message are free.
  pub handle_auth_response-success_iff :
      (now : ℕ) (request : FrameHeader) (payload : Bytes) (s : AuthState) (store : E.Store)
      → ((handle_auth_response E verify now request payload s store).code ≡ success) ↔ (
          (m : SignedMessage) × (r : DeviceRecord) × (c : ActiveChallenge) × Accepts E verify now
            payload s store m r c)
  handle_auth_response-success_iff now request payload s store = (
    response_code now request payload s store,
    λ (m, r, c, a). response_success now request payload s store m r c a,
  )
