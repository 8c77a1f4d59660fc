-- ===== src/Service/Relay.antt =====
-- windows/service/MobileUnlockService.cpp: the requests to lock and their answers, over a sequence of
-- events. An abstract machine holds the request that waits; the service is compared with it. The
-- handlers run one after the other here; Service/Races has their accesses in any order.
use mathlib.Core.List.{Sublistᴰ as IsSublist}
use pc_unlock_project.Common.{
  ℕ, ◌≡◌, ◌⊎◌, refl, Bool, true, false, not, ◌&&◌, ◌==◌, if◌then◌else◌, List, [], ◌∷◌, ◌++◌, Bytes,
  if_cases, option_cases, Bool-cases, inl, inr, drop,
}
use pc_unlock_project.Protocol.Types.{
  opcode, ping, auth_request, auth_response, lock_request, lock_response,
}
use pc_unlock_project.Protocol.Frame.{FrameHeader, deserialize_frame_header}
use pc_unlock_project.Protocol.SignedMessage.{SignedMessage}
use pc_unlock_project.Pairing.Record.{Devices}
use pc_unlock_project.Service.State.{
  ServiceState, Output, to_phone, to_agent, logged, Effect, counted, service_header, set_state,
}
use pc_unlock_project.Service.Devices.{lock_request_device}
use pc_unlock_project.Service.Frames.{
  Surroundings, handle_network_frame, dispatch_frame, handle_lock_request, answer_ping, answered,
  lock_failure, forward_lock, is_unauthorized,
}
use pc_unlock_project.Service.Messages.{
  handle_ipc_message, dispatch_message, handle_lock_response, relayed,
}
use pc_unlock_project.Service.Authority.{reaches_agent}
use pc_unlock_project.Service.Sessions.{Event, frame, message, registry, service_step}

-- A phone's connection and the number of its message.
abbrev pub Ticket : Type 0
Ticket = ℕ × ℕ

-- The machine: the tickets that wait before and after a turn, the one that asks, the one that is
-- answered. A new request replaces the one that waits.
pub data Turn (waiting : List Ticket) : List Ticket → List Ticket → List Ticket → Type 0 where
  quiet : Turn waiting waiting [] []
  ask :
      (t : Ticket) (left : List Ticket)
      → (left ≡ []) ⊎ (left ≡ t ∷ [])
      → Turn waiting left (t ∷ []) []
  answer : (t : Ticket) → waiting ≡ t ∷ [] → Turn waiting [] [] (t ∷ [])
  lost : Turn waiting [] [] []

pub sublist-append {ℓ} :
    {A : Type ℓ} (zs xs ys : List A) → IsSublist xs ys → IsSublist xs (zs ++ ys)
sublist-append [] xs ys h = h
sublist-append (z ∷ zs) xs ys h = IsSublist.cons (sublist-append zs xs ys h)

-- If the later answers are found among what waits after a turn and the later requests, all answers are
-- found among what waits before it and all requests.
pub Turn-sublist :
    (p : List Ticket) {p1 a b : List Ticket} (requests answers : List Ticket)
    → Turn p p1 a b
    → IsSublist answers (p1 ++ requests)
    → IsSublist (b ++ answers) (p ++ (a ++ requests))
Turn-sublist p requests answers quiet h = h
Turn-sublist p requests answers (ask t left (inl e)) h =
    sublist-append p answers (t ∷ requests) (IsSublist.cons (rw e at h))
Turn-sublist p requests answers (ask t left (inr e)) h =
    sublist-append p answers (t ∷ requests) (rw e at h)
Turn-sublist p requests answers (answer t e) h = rw e (IsSublist.cons-cons refl h)
Turn-sublist p requests answers lost h = sublist-append p answers requests h

-- The tickets of what is sent to phones.
abbrev pub tickets : List Output → List Ticket
tickets [] = []
tickets (to_phone client header payload ∷ rest) = (client, header.message_id) ∷ tickets rest
tickets (to_agent bytes ∷ rest) = tickets rest
tickets (logged event ∷ rest) = tickets rest

-- The ticket that waits in the service.
abbrev pub waiting : {Store : Type 0} → ServiceState Store → List Ticket
waiting s =
    if s.pending_lock_client_id == 0
    then []
    else (s.pending_lock_client_id, s.pending_lock_message_id) ∷ []

new_ticket :
    (b : Bool) (t : Ticket)
    → ((if b then [] else t ∷ []) ≡ []) ⊎ ((if b then [] else t ∷ []) ≡ t ∷ [])
new_ticket true t = inl refl
new_ticket false t = inr refl

module _ (E : Devices) (verify : Bytes → SignedMessage → Bytes → Bool) where
  -- The request that a step hands to the agent, and the tickets that a message of the agent answers.
  abbrev pub asked_by : Event E verify → List Output → List Ticket
  asked_by (frame w client header payload) out =
      if reaches_agent out then (client, header.message_id) ∷ [] else []
  asked_by (message bytes) out = []
  asked_by (registry other) out = []

  abbrev pub answered_by : Event E verify → List Output → List Ticket
  answered_by (frame w client header payload) out = []
  answered_by (message bytes) out = tickets out
  answered_by (registry other) out = []

  unfoldable pub asks : ServiceState E.Store → List (Event E verify) → List Ticket
  asks s [] = []
  asks s (e ∷ es) = let (s1, out) = service_step E verify s e in asked_by e out ++ asks s1 es

  unfoldable pub answers : ServiceState E.Store → List (Event E verify) → List Ticket
  answers s [] = []
  answers s (e ∷ es) =
      let (s1, out) = service_step E verify s e in answered_by e out ++ answers s1 es

  -- What an effect of a frame is for the machine.
  abbrev FrameTurn : ServiceState E.Store → ℕ → FrameHeader → Effect E.Store → Type 0
  FrameTurn s client header eff =
      Turn (waiting s) (waiting eff.0)
        (if reaches_agent eff.1 then (client, header.message_id) ∷ [] else []) []

  lock-FrameTurn :
      (w : Surroundings) (client : ℕ) (header : FrameHeader) (payload : Bytes)
      (s : ServiceState E.Store)
      → FrameTurn s client header (handle_lock_request E w client header payload s)
  unfolding handle_lock_request lock_failure forward_lock
  lock-FrameTurn w client header payload s =
      if_cases (FrameTurn s client header)
        (is_unauthorized E (lock_request_device payload w.unset) s.store) _ _ (λ e. quiet)
        (λ e.
          if_cases (FrameTurn s client header) (not (s.has_ipc_server && w.agent_connected)) _ _
            (λ f. quiet)
            (λ f.
              ask (client, header.message_id) _
                (new_ticket (client == 0) (client, header.message_id))))

  dispatch-FrameTurn :
      (w : Surroundings) (client : ℕ) (header : FrameHeader) (payload : Bytes)
      (s : ServiceState E.Store)
      → FrameTurn s client header (dispatch_frame E verify w client header payload s)
  unfolding dispatch_frame answer_ping answered
  dispatch-FrameTurn w client header payload s =
      let P = FrameTurn s client header in
      if_cases P (header.message_type == opcode ping) _ _ (λ e. quiet)
        (λ e.
          if_cases P (header.message_type == opcode auth_request) _ _ (λ f. quiet)
            (λ f.
              if_cases P (header.message_type == opcode auth_response) _ _ (λ g. quiet)
                (λ g.
                  if_cases P (header.message_type == opcode lock_request) _ _
                    (λ h. lock-FrameTurn w client header payload s) (λ h. quiet))))

  abbrev MessageTurn : ServiceState E.Store → Effect E.Store → Type 0
  MessageTurn s eff = Turn (waiting s) (waiting eff.0) [] (tickets eff.1)

  lock_response-MessageTurn :
      (payload : Bytes) (s : ServiceState E.Store) → MessageTurn s (handle_lock_response payload s)
  unfolding handle_lock_response relayed set_state service_header
  lock_response-MessageTurn payload s = elim (Bool-cases (s.pending_lock_client_id == 0)) [
    | inl none_waits ↦ rw none_waits lost
    | inr waits ↦ elim (Bool-cases s.has_network_engine) [
      | inl there ↦ rw (waits, there) (answer _ refl)
      | inr gone ↦ rw (waits, gone) lost
    ]
  ]

  message-MessageTurn :
      (bytes : Bytes) (s : ServiceState E.Store) → MessageTurn s (handle_ipc_message bytes s)
  unfolding handle_ipc_message dispatch_message
  message-MessageTurn bytes s =
      let P = MessageTurn s in
      option_cases P (deserialize_frame_header bytes) _ _ (λ e. quiet)
        (λ h e.
          if_cases P (h.message_type == opcode ping) _ _ (λ f. quiet)
            (λ f.
              if_cases P (h.message_type == opcode lock_response) _ _
                (λ g. lock_response-MessageTurn (drop 24 bytes) (counted s)) (λ g. quiet)))

  -- Every step of the service is a turn of the machine.
  pub service_step-Turn :
      (s : ServiceState E.Store) (e : Event E verify)
      → let eff = service_step E verify s e in
        Turn (waiting s) (waiting eff.0) (asked_by e eff.1) (answered_by e eff.1)
  unfolding service_step handle_network_frame
  service_step-Turn s (frame w client header payload) =
      dispatch-FrameTurn w client header payload (counted s)
  service_step-Turn s (message bytes) = message-MessageTurn bytes s
  service_step-Turn s (registry other) = quiet

  answers-sublist :
      (s : ServiceState E.Store) (es : List (Event E verify))
      → IsSublist (answers s es) (waiting s ++ asks s es)
  unfolding answers asks
  answers-sublist s [] = sublist-append (waiting s) [] [] IsSublist.slnil
  answers-sublist s (e ∷ es) =
      let (s1, out) = service_step E verify s e in
      Turn-sublist (waiting s) (asks s1 es) (answers s1 es) (service_step-Turn s e)
        (answers-sublist s1 es)

  -- The answers to phones are, in order, answers to requests that were handed to the agent, each
  -- request answered at most once, by its connection and its message number: over any sequence of
  -- events from a service where no request waits, handled one after the other.
  answers-asks :
      (s : ServiceState E.Store) (es : List (Event E verify))
      → s.pending_lock_client_id ≡ 0
      → IsSublist (answers s es) (asks s es)
  answers-asks s es none_waits =
      let e : waiting s ≡ [] = rw none_waits refl in rw e at (answers-sublist s es)
