-- ===== src/Auth/Replay.antt =====
-- The AuthenticationManager over a sequence of calls: its handlers are moves of the machine of the
-- Sessions module, so no session is accepted twice.
use pc_unlock_project.Common.{
  ℕ, ◌+◌, ◌^◌, ◌<◌, ◌≡◌, ◌≢◌, refl, Bool, not, ◌==◌, List, [], ◌∷◌, Option, none, some, Bytes, All,
  length, take, drop, arith, if_cases, option_cases, list_cases,
}
use pc_unlock_project.Common.Assoc.{find, bytes_Eq}
use pc_unlock_project.Protocol.Frame.{FrameHeader}
use pc_unlock_project.Protocol.SignedMessage.{SignedMessage, deserialize_signed_message}
use pc_unlock_project.Pairing.Identity.{DeviceId, device_id_to_string}
use pc_unlock_project.Pairing.Record.{Devices, status_active}
use pc_unlock_project.Auth.Types.{
  AuthState, AuthResultCode, Reply, success, Challenges, initial_state, set_server_identity,
  rate_limited, internal_error, unknown_device, device_revoked, missing_public_key, invalid_payload,
  challenge_expired, challenge_mismatch, replay_detected, signature_invalid,
}
use pc_unlock_project.Auth.Limits.{is_rate_limited}
use pc_unlock_project.Auth.Request.{handle_auth_request, admit_request, issue_challenge, refusal}
use pc_unlock_project.Auth.Response.{handle_auth_response, check_device}
use pc_unlock_project.Auth.Response.Cases.{device_cases, response_cases, checked}
use pc_unlock_project.Auth.Sessions.{
  Move, same, skipped, issued, spent, accepted, IsUnique, IsOpen, Move-IsUnique, Move-IsOpen,
  accepted-IsOpen,
}

-- The session number of the message in a payload, if the answer is SUCCESS.
abbrev pub session_of : AuthResultCode → Option SignedMessage → Option ℕ
session_of success (some m) = some m.session_id
session_of _ _ = none

abbrev IsMove : {Store : Type 0} → Option SignedMessage → AuthState → Reply Store → Type 0
IsMove o s r =
    Move s.session_counter s.active_challenges r.state.session_counter r.state.active_challenges
      (session_of r.code o)

module _ (E : Devices) where
  issue_challenge-IsMove :
      (now : ℕ) (random : Option Bytes) (id : DeviceId) (request out : FrameHeader) (s : AuthState)
      (store : E.Store)
      → IsMove none s (issue_challenge now random id request out s store)
  unfolding issue_challenge refusal
  issue_challenge-IsMove now none id request out s store = skipped
  issue_challenge-IsMove now (some nonce) id request out s store =
      issued (device_id_to_string id) _ refl

  pub handle_auth_request-IsMove :
      (now : ℕ) (random : Option Bytes) (id : DeviceId) (request out : FrameHeader) (s : AuthState)
      (store : E.Store)
      → IsMove none s (handle_auth_request E now random id request out s store)
  unfolding handle_auth_request admit_request refusal
  handle_auth_request-IsMove now random id request out s store =
      let text = device_id_to_string id in
      let (limited, limits) = is_rate_limited text now s.rate_limits in
      let checked = record s { rate_limits = limits } in
      if_cases (IsMove none s) limited _ _ (λ e. same)
        (λ e.
          option_cases (IsMove none s) (E.read_device_record text store) _ _ (λ f. same)
            (λ r f.
              if_cases (IsMove none s) (not (r.pair_status == status_active)) _ _ (λ g. same)
                (λ g.
                  list_cases (IsMove none s) r.public_key _ _ (λ h. same)
                    (λ h. issue_challenge-IsMove now random id request out checked store))))

pub session_of_refusal :
    (code : AuthResultCode) (o : Option SignedMessage) → code ≢ success → session_of code o ≡ none
session_of_refusal success o n = absurd (n refl)
session_of_refusal unknown_device o n = refl
session_of_refusal device_revoked o n = refl
session_of_refusal missing_public_key o n = refl
session_of_refusal invalid_payload o n = refl
session_of_refusal challenge_expired o n = refl
session_of_refusal challenge_mismatch o n = refl
session_of_refusal replay_detected o n = refl
session_of_refusal signature_invalid o n = refl
session_of_refusal rate_limited o n = refl
session_of_refusal internal_error o n = refl

abbrev pub Distinct : List ℕ → Type 0
Distinct [] = Unit
Distinct (x ∷ xs) = All (λ y. y ≢ x) xs × Distinct xs

differ_from : (a : ℕ) (xs : List ℕ) → All (λ x. some a ≢ some x) xs → All (λ x. x ≢ a) xs
differ_from a [] h = tt
differ_from a (x ∷ xs) h = (λ e. h.0 cc, differ_from a xs h.1)

initial_state-IsUnique : IsUnique 1 []
unfolding find
initial_state-IsUnique = record { below = λ k c e. cc; distinct = λ k j c d e f eq. cc }

module _ (E : Devices) (verify : Bytes → SignedMessage → Bytes → Bool) where
  check_device-IsMove :
      (now : ℕ) (request : FrameHeader) (id : Bytes) (m : SignedMessage) (signature : Bytes)
      (s : AuthState) (store : E.Store)
      → IsMove (some m) s (check_device E verify now request id m signature s store)
  check_device-IsMove now request id m signature s store =
      device_cases E verify now request store (IsMove (some m) s) id m s
        (λ code reason e. rw (session_of_refusal code (some m) (λ x. ground arith)) same)
        (λ code reason c e unused k.
          rw (session_of_refusal code (some m) (λ x. ground arith)) (spent id c e))
        (λ r c e unused eq. rw eq (accepted id c e unused)) signature

  -- A response is a move that accepts the message's session if the answer is SUCCESS.
  pub handle_auth_response-IsMove :
      (now : ℕ) (request : FrameHeader) (payload : Bytes) (s : AuthState) (store : E.Store)
      → IsMove
          (deserialize_signed_message (take 88 payload))
          s
          (handle_auth_response E verify now request payload s store)
  handle_auth_response-IsMove now request payload s store =
      response_cases E verify now request store
        (IsMove (deserialize_signed_message (take 88 payload)) s) payload s (λ reason. same)
        (λ m reason e limited. same)
        (λ m e free. rw e (
          check_device-IsMove now request (device_id_to_string m.device_identity) m
            (drop 88 payload) (checked m now s) store))

  -- What reaches the manager, and a change of the registry by another component.
  pub data Call : Type 0 where
    requests : ℕ → Option Bytes → DeviceId → FrameHeader → FrameHeader → Call
    responds : ℕ → FrameHeader → Bytes → Call
    renames : Bytes → Call
    registry_changes : E.Store → Call

  -- The state and the registry after a call, and the session that it accepted.
  unfoldable pub step : AuthState → E.Store → Call → AuthState × E.Store × Option ℕ
  step s store (requests now random id request out) =
      let r = handle_auth_request E now random id request out s store in
      (r.state, r.store, session_of r.code none)
  step s store (responds now request payload) =
      let r = handle_auth_response E verify now request payload s store in
      (r.state, r.store, session_of r.code (deserialize_signed_message (take 88 payload)))
  step s store (renames id) = (set_server_identity id s, store, none)
  step s store (registry_changes other) = (s, other, none)

  abbrev pub note : Option ℕ → List ℕ → List ℕ
  note none xs = xs
  note (some a) xs = a ∷ xs

  -- The sessions that the calls accept, in order.
  unfoldable pub accepted_sessions : AuthState → E.Store → List Call → List ℕ
  accepted_sessions s store [] = []
  accepted_sessions s store (c ∷ cs) =
      let (s1, store1, o) = step s store c in note o (accepted_sessions s1 store1 cs)

  step-Move :
      (s : AuthState) (store : E.Store) (c : Call)
      → Move s.session_counter s.active_challenges
          (step s store c).0.session_counter
          (step s store c).0.active_challenges
          (step s store c).2
  unfolding step set_server_identity
  step-Move s store (requests now random id request out) =
      handle_auth_request-IsMove E now random id request out s store
  step-Move s store (responds now request payload) =
      handle_auth_response-IsMove now request payload s store
  step-Move s store (renames id) = same
  step-Move s store (registry_changes other) = same

  IsOpen-before :
      (n : ℕ) (m : Challenges) {n1 : ℕ} {m1 : Challenges} {o : Option ℕ} (xs : List ℕ)
      → Move n m n1 m1 o
      → n + 1 < 2 ^ 64
      → IsUnique n m
      → All (IsOpen n1 m1) xs
      → All (IsOpen n m) xs × All (λ a. o ≢ some a) xs
  IsOpen-before n m [] move small u h = (tt, tt)
  IsOpen-before n m (x ∷ xs) move small u h =
      let (here, differ) = Move-IsOpen n m x move small u h.0 in
      let (rest, others) = IsOpen-before n m xs move small u h.1 in ((here, rest), (differ, others))

  note-Distinct :
      (n : ℕ) (m : Challenges) {n1 : ℕ} {m1 : Challenges} (o : Option ℕ) (xs : List ℕ)
      → Move n m n1 m1 o
      → n + 1 < 2 ^ 64
      → IsUnique n m
      → All (IsOpen n1 m1) xs
      → Distinct xs
      → All (IsOpen n m) (note o xs) × Distinct (note o xs)
  note-Distinct n m none xs move small u h d = ((IsOpen-before n m xs move small u h).0, d)
  note-Distinct n m (some a) xs move small u h d =
      let (rest, others) = IsOpen-before n m xs move small u h in
      ((accepted-IsOpen n m a move refl, rest), (differ_from a xs others, d))

  accepted_sessions-IsOpen :
      (s : AuthState) (store : E.Store) (cs : List Call)
      → s.session_counter + length cs < 2 ^ 64
      → IsUnique s.session_counter s.active_challenges
      → All (IsOpen s.session_counter s.active_challenges) (accepted_sessions s store cs)
        × Distinct (accepted_sessions s store cs)
  unfolding accepted_sessions
  accepted_sessions-IsOpen s store [] small u = (tt, tt)
  accepted_sessions-IsOpen s store (c ∷ cs) small u =
      let (s1, store1, o) = step s store c in
      let move = step-Move s store c in
      let (u1, low, high) =
        Move-IsUnique s.session_counter s.active_challenges move (omega arith) u in
      let (opens, distinct) = accepted_sessions-IsOpen s1 store1 cs (omega arith) u1 in
      note-Distinct s.session_counter s.active_challenges o _ move (omega arith) u opens distinct

  -- No session is accepted twice: over any sequence of requests, responses and changes of the
  -- registry and of the server's identity, at any times, from the initial state, as long as the
  -- session counter does not reach 2^64.
  pub accepted_sessions-Distinct :
      (store : E.Store) (cs : List Call)
      → 1 + length cs < 2 ^ 64
      → Distinct (accepted_sessions initial_state store cs)
  accepted_sessions-Distinct store cs small =
      (accepted_sessions-IsOpen initial_state store cs small initial_state-IsUnique).1
