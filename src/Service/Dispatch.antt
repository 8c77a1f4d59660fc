-- ===== src/Service/Dispatch.antt =====
-- windows/service/MobileUnlockService.cpp: which types of frames `HandleNetworkFrame` serves.
use pc_unlock_project.Common.{
  ℕ, ◌≡◌, ◌≢◌, ◌↔◌, refl, ap, Bool, true, false, not, ◌&&◌, ◌||◌, ◌==◌, List, [], ◌∷◌, Bytes, arith,
  if_cases, Bool-cases, inl, inr,
}
use pc_unlock_project.Protocol.Types.{
  MessageType, opcode, ping, auth_request, auth_response, lock_request, pair_request, pair_response,
  pair_confirm, pair_complete, unpair_request, unpair_response, status_request,
}
use pc_unlock_project.Protocol.Frame.{FrameHeader}
use pc_unlock_project.Protocol.SignedMessage.{SignedMessage}
use pc_unlock_project.Pairing.Record.{Devices}
use pc_unlock_project.Service.State.{ServiceState, Effect, counted}
use pc_unlock_project.Service.Devices.{lock_request_device}
use pc_unlock_project.Service.Frames.{
  Surroundings, handle_network_frame, dispatch_frame, handle_lock_request, answer_ping, answered,
  lock_failure, forward_lock, is_unauthorized,
}

abbrev pub served_types : List MessageType
served_types = ping ∷ auth_request ∷ auth_response ∷ lock_request ∷ []

-- The types of the pairing protocol and the question for the PC's status, which docs/PROTOCOL.md has
-- between a phone and the PC.
abbrev pub unserved_types : List MessageType
unserved_types =
    pair_request ∷ pair_response ∷ pair_confirm ∷ pair_complete ∷ unpair_request ∷ unpair_response
    ∷ status_request ∷ []

abbrev pub is_among : ℕ → List MessageType → Bool
is_among n [] = false
is_among n (t ∷ ts) = n == opcode t || is_among n ts

module _ (E : Devices) (verify : Bytes → SignedMessage → Bytes → Bool) (w : Surroundings)
    (client : ℕ) (header : FrameHeader) (payload : Bytes) (s : ServiceState E.Store) where
  lock-answers : (handle_lock_request E w client header payload s).1 ≢ []
  unfolding handle_lock_request lock_failure forward_lock
  lock-answers =
      let P : Effect E.Store → Type 0 = λ eff. eff.1 ≢ [] in
      if_cases P (is_unauthorized E (lock_request_device payload w.unset) s.store) _ _ (λ e x. cc)
        (λ e. if_cases P (not (s.has_ipc_server && w.agent_connected)) _ _ (λ f x. cc) (λ f x. cc))

  served :
      is_among header.message_type served_types ≡ true
      → (dispatch_frame E verify w client header payload s).1 ≢ []
  unfolding dispatch_frame answer_ping answered
  served h =
      let P : Effect E.Store → Type 0 = λ eff. eff.1 ≢ [] in
      if_cases P (header.message_type == opcode ping) _ _ (λ e x. cc)
        (λ e.
          if_cases P (header.message_type == opcode auth_request) _ _ (λ f x. cc)
            (λ f.
              if_cases P (header.message_type == opcode auth_response) _ _ (λ g x. cc)
                (λ g.
                  if_cases P (header.message_type == opcode lock_request) _ _ (λ k. lock-answers)
                    (λ k. absurd (ground arith)))))

  ignored :
      is_among header.message_type served_types ≡ false
      → dispatch_frame E verify w client header payload s ≡ (s, [])
  unfolding dispatch_frame
  ignored h =
      let P : Effect E.Store → Type 0 = λ eff. eff ≡ (s, []) in
      if_cases P (header.message_type == opcode ping) _ _ (λ e. absurd (ground arith))
        (λ e.
          if_cases P (header.message_type == opcode auth_request) _ _ (λ f. absurd (ground arith))
            (λ f.
              if_cases P (header.message_type == opcode auth_response) _ _
                (λ g. absurd (ground arith))
                (λ g.
                  if_cases P (header.message_type == opcode lock_request) _ _
                    (λ k. absurd (ground arith)) (λ k. refl))))

disjoint : (n : ℕ) → (is_among n unserved_types && is_among n served_types) ≡ false
disjoint n = ground arith

-- A frame leaves no trace but the count of messages exactly if its type is none of PING, AUTH_REQUEST,
-- AUTH_RESPONSE and LOCK_REQUEST. No type of the pairing protocol is one of these, and STATUS_REQUEST is
-- not, although docs/PROTOCOL.md has the phone send it and the PC answer it with STATUS_RESPONSE.
pub handle_network_frame-served_iff :
    (E : Devices) (verify : Bytes → SignedMessage → Bytes → Bool) (w : Surroundings) (client : ℕ)
    (header : FrameHeader) (payload : Bytes) (s : ServiceState E.Store)
    → ((handle_network_frame E verify w client header payload s ≡ (counted s, []))
        ↔ (is_among header.message_type served_types ≡ false))
      × ((is_among header.message_type unserved_types && is_among header.message_type served_types)
          ≡ false)
unfolding handle_network_frame
handle_network_frame-served_iff E verify w client header payload s = (
  (
    λ e. elim (Bool-cases (is_among header.message_type served_types)) [
      | inl known ↦ absurd (
          served E verify w client header payload (counted s) known
            (ap (λ (eff : Effect E.Store). eff.1) e))
      | inr other ↦ other
    ],
    ignored E verify w client header payload (counted s),
  ),
  disjoint header.message_type,
)
