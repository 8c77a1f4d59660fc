-- ===== src/Service/Sessions.antt =====
-- windows/service/MobileUnlockService.cpp: the service over a sequence of events, and the sessions for
-- which a phone gets AUTH_SUCCESS.
use pc_unlock_project.Common.{
  ℕ, suc, ◌+◌, ◌^◌, ◌<◌, ◌≤◌, ◌≡◌, refl, sym, ap, ◌∙◌, Bool, true, false, not, ◌&&◌, ◌==◌,
  if◌then◌else◌, List, [], ◌∷◌, Option, none, some, Bytes, length, take, arith, if_cases,
  option_cases, Bool-cases, inl, inr,
}
use pc_unlock_project.Protocol.Types.{
  opcode, ping, auth_request, auth_response, auth_success, lock_request, lock_response,
}
use pc_unlock_project.Protocol.Frame.{FrameHeader, default_header, deserialize_frame_header}
use pc_unlock_project.Protocol.SignedMessage.{SignedMessage, deserialize_signed_message}
use pc_unlock_project.Pairing.Record.{Devices}
use pc_unlock_project.Auth.Types.{AuthState, AuthResultCode, success, Reply, initial_state}
use pc_unlock_project.Auth.Request.{handle_auth_request}
use pc_unlock_project.Auth.Response.{handle_auth_response}
use pc_unlock_project.Auth.Replay.{
  Call, requests, responds, registry_changes, step, accepted_sessions, accepted_sessions-Distinct,
  Distinct, session_of, note,
}
use pc_unlock_project.Auth.Verdicts.{
  says_success, number_of, handle_auth_request-quiet, handle_auth_response-session,
}
use pc_unlock_project.Service.State.{
  ServiceState, Output, to_phone, to_agent, logged, Effect, counted, service_header, set_state,
}
use pc_unlock_project.Service.Devices.{auth_request_device, lock_request_device}
use pc_unlock_project.Service.Frames.{
  Surroundings, handle_network_frame, dispatch_frame, handle_lock_request, answer_ping, answered,
  lock_failure, forward_lock, is_unauthorized,
}
use pc_unlock_project.Service.Messages.{handle_ipc_message, dispatch_message, handle_lock_response}

collapse :
    (b : Bool) (o : Option ℕ)
    → (if (if b then true else false) then o else none) ≡ (if b then o else none)
collapse true o = refl
collapse false o = refl

session_of-none : (code : AuthResultCode) → session_of code none ≡ none
session_of-none success = refl
session_of-none _ = refl

module _ (E : Devices) (verify : Bytes → SignedMessage → Bytes → Bool) where
  -- What reaches the service, and a change of the registry by another component.
  pub data Event : Type 0 where
    frame : Surroundings → ℕ → FrameHeader → Bytes → Event
    message : Bytes → Event
    registry : E.Store → Event

  unfoldable pub service_step : ServiceState E.Store → Event → Effect E.Store
  service_step s (frame w client header payload) =
      handle_network_frame E verify w client header payload s
  service_step s (message bytes) = handle_ipc_message bytes s
  service_step s (registry other) = (record s { store = other }, [])

  -- Whether the outputs tell a phone that its logon is accepted.
  abbrev pub is_accepted : List Output → Bool
  is_accepted [] = false
  is_accepted (to_phone client header payload ∷ rest) =
      if header.message_type == opcode auth_success then true else is_accepted rest
  is_accepted (to_agent bytes ∷ rest) = is_accepted rest
  is_accepted (logged event ∷ rest) = is_accepted rest

  abbrev pub accepted_by : Event → List Output → Option ℕ
  accepted_by (frame w client header payload) out =
      if is_accepted out then number_of (deserialize_signed_message (take 88 payload)) else none
  accepted_by (message bytes) out = none
  accepted_by (registry other) out = none

  -- The sessions for which a phone is told that it is accepted, in order.
  unfoldable pub accepted_events : ServiceState E.Store → List Event → List ℕ
  accepted_events s [] = []
  accepted_events s (e ∷ es) =
      let (s1, out) = service_step s e in note E verify (accepted_by e out) (accepted_events s1 es)

  -- The call of the AuthenticationManager that an event makes.
  abbrev call_of_frame : Surroundings → FrameHeader → Bytes → Option (Call E verify)
  call_of_frame w header payload =
      if header.message_type == opcode ping
      then none
      else if header.message_type == opcode auth_request
      then some
          (requests w.now w.random (auth_request_device payload w.unset) header default_header)
      else if header.message_type == opcode auth_response
      then some (responds w.now header payload)
      else none

  abbrev call_of : Event → Option (Call E verify)
  call_of (frame w client header payload) = call_of_frame w header payload
  call_of (message bytes) = none
  call_of (registry other) = some (registry_changes other)

  -- The manager's part of a step.
  abbrev manager_step :
      AuthState → E.Store → Option (Call E verify) → AuthState × E.Store × Option ℕ
  manager_step a store none = (a, store, none)
  manager_step a store (some c) = step E verify a store c

  module _ (payload : Bytes) where
    -- What an effect shows of the manager.
    abbrev shown : Effect E.Store → AuthState × E.Store × Option ℕ
    shown eff = (
      eff.0.auth,
      eff.0.store,
      if is_accepted eff.1 then number_of (deserialize_signed_message (take 88 payload)) else none,
    )

    answered-request :
        (client : ℕ) (s : ServiceState E.Store) (r : Reply E.Store)
        → says_success r ≡ false
        → shown (answered client s r) ≡ (r.state, r.store, session_of r.code none)
    unfolding answered
    answered-request client s r quiet = rw (quiet, session_of-none r.code) refl

    answered-response :
        (client : ℕ) (s : ServiceState E.Store) (r : Reply E.Store)
        → session_of r.code (deserialize_signed_message (take 88 payload)) ≡ (
            if says_success r
            then number_of (deserialize_signed_message (take 88 payload))
            else none)
        → shown (answered client s r)
          ≡ (r.state, r.store, session_of r.code (deserialize_signed_message (take 88 payload)))
    unfolding answered
    answered-response client s r e = λ i. (
      r.state,
      r.store,
      (collapse (says_success r) (number_of (deserialize_signed_message (take 88 payload))) ∙ sym e)
          i,
    )

    lock-shown :
        (w : Surroundings) (client : ℕ) (header : FrameHeader) (s : ServiceState E.Store)
        → shown (handle_lock_request E w client header payload s) ≡ (s.auth, s.store, none)
    unfolding handle_lock_request lock_failure forward_lock service_header
    lock-shown w client header s =
        let P : Effect E.Store → Type 0 = λ eff. shown eff ≡ (s.auth, s.store, none) in
        if_cases P (is_unauthorized E (lock_request_device payload w.unset) s.store) _ _ (λ e. refl)
          (λ e.
            if_cases P (not (s.has_ipc_server && w.agent_connected)) _ _ (λ f. refl) (λ f. refl))

    -- A frame does to the manager what its call does, and shows it.
    frame-shown :
        (w : Surroundings) (client : ℕ) (header : FrameHeader) (s : ServiceState E.Store)
        → shown (dispatch_frame E verify w client header payload s)
          ≡ manager_step s.auth s.store (call_of_frame w header payload)
    unfolding dispatch_frame answer_ping service_header step
    frame-shown w client header s = elim (Bool-cases (header.message_type == opcode ping)) [
      | inl a ↦ rw a refl
      | inr a ↦ elim (Bool-cases (header.message_type == opcode auth_request)) [
        | inl b ↦
            rw (a, b)
              (answered-request client s
                (handle_auth_request E w.now w.random (auth_request_device payload w.unset) header
                  default_header s.auth s.store)
                (handle_auth_request-quiet E w.now w.random (auth_request_device payload w.unset)
                  header default_header s.auth s.store))
        | inr b ↦ elim (Bool-cases (header.message_type == opcode auth_response)) [
          | inl c ↦
              rw (a, b, c)
                (answered-response client s
                  (handle_auth_response E verify w.now header payload s.auth s.store)
                  (handle_auth_response-session E verify w.now header payload s.auth s.store))
          | inr c ↦ elim (Bool-cases (header.message_type == opcode lock_request)) [
            | inl d ↦ rw (a, b, c, d) (lock-shown w client header s)
            | inr d ↦ rw (a, b, c, d) refl
          ]
        ]
      ]
    ]

  quiet_message :
      (bytes : Bytes) (s : ServiceState E.Store)
      → ((handle_ipc_message bytes s).0.auth ≡ s.auth)
        × ((handle_ipc_message bytes s).0.store ≡ s.store)
  unfolding handle_ipc_message dispatch_message handle_lock_response set_state
  quiet_message bytes s =
      let P : Effect E.Store → Type 0 = λ eff. (eff.0.auth ≡ s.auth) × (eff.0.store ≡ s.store) in
      option_cases P (deserialize_frame_header bytes) _ _ (λ e. (refl, refl))
        (λ h e.
          if_cases P (h.message_type == opcode ping) _ _ (λ f. (refl, refl))
            (λ f.
              if_cases P (h.message_type == opcode lock_response) _ _ (λ g. (refl, refl))
                (λ g. (refl, refl))))

  -- A step of the service is one of the manager.
  service_step-manager :
      (s : ServiceState E.Store) (e : Event)
      → let eff = service_step s e in
        (eff.0.auth, eff.0.store, accepted_by e eff.1) ≡ manager_step s.auth s.store (call_of e)
  unfolding service_step handle_network_frame step
  service_step-manager s (frame w client header payload) =
      frame-shown payload w client header (counted s)
  service_step-manager s (message bytes) =
      let (a, b) = quiet_message bytes s in λ i. (a i, b i, none)
  service_step-manager s (registry other) = refl

  add_call : Option (Call E verify) → List (Call E verify) → List (Call E verify)
  add_call none cs = cs
  add_call (some c) cs = c ∷ cs

  pub calls_of : List Event → List (Call E verify)
  unfolding add_call
  calls_of [] = []
  calls_of (e ∷ es) = add_call (call_of e) (calls_of es)

  length-add_call :
      (o : Option (Call E verify)) (cs : List (Call E verify))
      → length (add_call o cs) ≤ suc (length cs)
  unfolding add_call
  length-add_call none cs = omega arith
  length-add_call (some c) cs = omega arith

  length-calls_of : (es : List Event) → length (calls_of es) ≤ length es
  unfolding calls_of
  length-calls_of [] = omega arith
  length-calls_of (e ∷ es) =
      omega (arith, length-add_call (call_of e) (calls_of es), length-calls_of es)

  accepted-add_call :
      (a : AuthState) (store : E.Store) (o : Option (Call E verify)) (cs : List (Call E verify))
      → let (a1, store1, x) = manager_step a store o in
        accepted_sessions E verify a store (add_call o cs)
        ≡ note E verify x (accepted_sessions E verify a1 store1 cs)
  unfolding accepted_sessions add_call
  accepted-add_call a store none cs = refl
  accepted-add_call a store (some c) cs = refl

  -- The sessions that phones are told of are those that the manager accepts over the calls.
  pub accepted_events-accepted_sessions :
      (s : ServiceState E.Store) (es : List Event)
      → accepted_events s es ≡ accepted_sessions E verify s.auth s.store (calls_of es)
  unfolding accepted_events calls_of
  accepted_events-accepted_sessions s [] = unfold accepted_sessions in refl
  accepted_events-accepted_sessions s (e ∷ es) =
      let (s1, out) = service_step s e in
      ap (note E verify (accepted_by e out)) (accepted_events-accepted_sessions s1 es)
      ∙ ap
          (λ (t : AuthState × E.Store × Option ℕ).
            note E verify t.2 (accepted_sessions E verify t.0 t.1 (calls_of es)))
          (service_step-manager s e)
      ∙ sym (accepted-add_call s.auth s.store (call_of e) (calls_of es))

  -- The service tells phones of an accepted logon at most once for a session: over any sequence of
  -- frames, messages of the agent and changes of the registry, from a service whose manager is new,
  -- as long as there are less than 2^64 - 1 events.
  pub accepted_events-Distinct :
      (s : ServiceState E.Store) (es : List Event)
      → s.auth ≡ initial_state
      → 1 + length es < 2 ^ 64
      → Distinct (accepted_events s es)
  accepted_events-Distinct s es new small =
      rw (accepted_events-accepted_sessions s es, new)
        (accepted_sessions-Distinct E verify s.store (calls_of es)
          (omega (arith, length-calls_of es)))
