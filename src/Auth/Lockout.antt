-- ===== src/Auth/Lockout.antt =====
-- What the handlers do to the counts of failures: the bound, the lockout, and the other devices.
use pc_unlock_project.Common.{
  ℕ, ◌+◌, ◌^◌, ◌<◌, ◌≡◌, ◌≢◌, refl, ◌∙◌, List, Bool, true, not, ◌==◌, Option, some, Bytes, take,
  drop, length, arith, if_cases, option_cases, list_cases, bytes_eq_iff,
}
use pc_unlock_project.Common.Assoc.{find, insert, bytes_Eq, find-insert}
use pc_unlock_project.Protocol.Frame.{FrameHeader}
use pc_unlock_project.Protocol.SignedMessage.{SignedMessage, deserialize_signed_message}
use pc_unlock_project.Pairing.Identity.{DeviceId, device_id_to_string}
use pc_unlock_project.Pairing.Record.{Devices, status_active}
use pc_unlock_project.Auth.Types.{AuthState, Reply, rate_limited, ActiveChallenge}
use pc_unlock_project.Auth.Limits.{is_rate_limited}
use pc_unlock_project.Auth.Limits.Laws.{
  AllBounded, is_rate_limited-AllBounded, record_failure-AllBounded, record_success-AllBounded,
  is_rate_limited-frame, record_failure-frame, record_success-frame,
}
use pc_unlock_project.Auth.Request.{handle_auth_request, admit_request, issue_challenge, refusal}
use pc_unlock_project.Auth.Response.{handle_auth_response, answer_message}
use pc_unlock_project.Auth.Response.Cases.{response_cases, device_cases, checked}

module _ (E : Devices) where
  -- A request changes the limits by its check only.
  handle_auth_request-limits :
      (now : ℕ) (random : Option Bytes) (id : DeviceId) (request out : FrameHeader) (s : AuthState)
      (store : E.Store)
      → (handle_auth_request E now random id request out s store).state.rate_limits
        ≡ (is_rate_limited (device_id_to_string id) now s.rate_limits).1
  unfolding handle_auth_request admit_request issue_challenge refusal
  handle_auth_request-limits now random id request out s store =
      let limits = (is_rate_limited (device_id_to_string id) now s.rate_limits).1 in
      let P : Reply E.Store → Type 0 = λ r. r.state.rate_limits ≡ limits in
      if_cases P (is_rate_limited (device_id_to_string id) now s.rate_limits).0 _ _ (λ e. refl)
        (λ e.
          option_cases P (E.read_device_record (device_id_to_string id) store) _ _ (λ f. refl)
            (λ r f.
              if_cases P (not (r.pair_status == status_active)) _ _ (λ g. refl)
                (λ g.
                  list_cases P r.public_key _ _ (λ h. refl)
                    (λ h. option_cases P random _ _ (λ k. refl) (λ n k. refl)))))

  -- While a device is locked out its request is refused, and the state is left as it was.
  handle_auth_request-locked :
      (now : ℕ) (random : Option Bytes) (id : DeviceId) (request out : FrameHeader) (s : AuthState)
      (store : E.Store)
      → (is_rate_limited (device_id_to_string id) now s.rate_limits).0 ≡ true
      → let r = handle_auth_request E now random id request out s store in
        (r.code ≡ rate_limited) × (r.state ≡ s) × (r.store ≡ store)
  unfolding handle_auth_request refusal is_rate_limited
  handle_auth_request-locked now random id request out s store h = ground arith

checked_locked :
    (m : SignedMessage) (now : ℕ) (s : AuthState)
    → (is_rate_limited (device_id_to_string m.device_identity) now s.rate_limits).0 ≡ true
    → checked m now s ≡ s
unfolding is_rate_limited
checked_locked m now s h = ground arith

same_device :
    {o : Option SignedMessage} {m m1 : SignedMessage}
    → o ≡ some m
    → o ≡ some m1
    → device_id_to_string m.device_identity ≡ device_id_to_string m1.device_identity
same_device e f = cc

challenge_frame :
    (id k : Bytes) (c : ActiveChallenge) (m : List (Bytes × ActiveChallenge))
    → id ≢ k
    → find k (insert id c m) ≡ find k m
challenge_frame id k c m n = ground (arith, find-insert id k c m, bytes_eq_iff id k)

module _ (E : Devices) (verify : Bytes → SignedMessage → Bytes → Bool) where
  -- The same of a response, whatever it carries and whoever signed it.
  handle_auth_response-locked :
      (now : ℕ) (request : FrameHeader) (payload : Bytes) (m : SignedMessage) (s : AuthState)
      (store : E.Store)
      → length payload ≡ 152
      → deserialize_signed_message (take 88 payload) ≡ some m
      → (is_rate_limited (device_id_to_string m.device_identity) now s.rate_limits).0 ≡ true
      → let r = handle_auth_response E verify now request payload s store in
        (r.code ≡ rate_limited) × (r.state ≡ s) × (r.store ≡ store)
  unfolding handle_auth_response answer_message
  handle_auth_response-locked now request payload m s store n e h =
      rw (n, e, h) (refl, checked_locked m now s h, refl)

  -- At most three failures of a device are counted, and the lockout is set exactly while the count
  -- is three. A response keeps this, if the clock is 15 minutes below 2^64.
  pub handle_auth_response-AllBounded :
      (now : ℕ) (request : FrameHeader) (payload : Bytes) (s : AuthState) (store : E.Store)
      → now + 900000 < 2 ^ 64
      → AllBounded s.rate_limits
      → AllBounded (handle_auth_response E verify now request payload s store).state.rate_limits
  handle_auth_response-AllBounded now request payload s store small b =
      let P : Reply E.Store → Type 0 = λ r. AllBounded r.state.rate_limits in
      response_cases E verify now request store P payload s (λ reason. b)
        (λ m reason e limited.
          is_rate_limited-AllBounded (device_id_to_string m.device_identity) now s.rate_limits b)
        (λ m e free.
          let id = device_id_to_string m.device_identity in
          let after = record_failure-AllBounded id now s.rate_limits b free small in
          device_cases E verify now request store P id m (checked m now s) (λ code reason k. after)
            (λ code reason c f unused k. after)
            (λ r c f unused eq.
              record_success-AllBounded id _ (is_rate_limited-AllBounded id now s.rate_limits b))
            (drop 88 payload))

  -- A response changes nothing of a device that its message does not name: neither its challenge
  -- nor its count of failures.
  handle_auth_response-frame :
      (now : ℕ) (request : FrameHeader) (payload : Bytes) (m : SignedMessage) (s : AuthState)
      (store : E.Store) (k : Bytes)
      → deserialize_signed_message (take 88 payload) ≡ some m
      → device_id_to_string m.device_identity ≢ k
      → let t = (handle_auth_response E verify now request payload s store).state in
        (find k t.active_challenges ≡ find k s.active_challenges)
        × (find k t.rate_limits ≡ find k s.rate_limits)
  handle_auth_response-frame now request payload m s store k e n =
      let P : Reply E.Store → Type 0 = λ r.
        (find k r.state.active_challenges ≡ find k s.active_challenges)
        × (find k r.state.rate_limits ≡ find k s.rate_limits) in
      response_cases E verify now request store P payload s (λ reason. (refl, refl))
        (λ m1 reason f limited.
          (refl, is_rate_limited-frame _ k now s.rate_limits (λ x. n (same_device e f ∙ x))))
        (λ m1 f free.
          let id = device_id_to_string m1.device_identity in
          let other : id ≢ k = λ x. n (same_device e f ∙ x) in
          let limits = (is_rate_limited id now s.rate_limits).1 in
          let kept = is_rate_limited-frame id k now s.rate_limits other in
          device_cases E verify now request store P id m1 (checked m1 now s)
            (λ code reason g. (refl, record_failure-frame id k now limits other ∙ kept))
            (λ code reason c g unused x. (
              challenge_frame id k _ s.active_challenges other,
              record_failure-frame id k now limits other ∙ kept,
            ))
            (λ r c g unused eq. (
              challenge_frame id k _ s.active_challenges other,
              record_success-frame id k limits other ∙ kept,
            ))
            (drop 88 payload))
