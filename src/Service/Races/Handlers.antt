-- ===== src/Service/Races/Handlers.antt =====
-- windows/service/MobileUnlockService.cpp: how the handlers of Service/Frames and Service/Messages make
-- the accesses of Service/Races.
use pc_unlock_project.Common.{
  ℕ, ◌≡◌, refl, true, false, not, ◌&&◌, ◌==◌, if◌then◌else◌, List, [], ◌∷◌, ◌++◌, All, Bool, Bytes,
  Bool-cases, inl, inr,
}
use pc_unlock_project.Protocol.Frame.{FrameHeader}
use pc_unlock_project.Service.State.{ServiceState, set_state, service_header}
use pc_unlock_project.Service.Frames.{forward_lock}
use pc_unlock_project.Service.Messages.{relayed, handle_lock_response}
use mathlib.Core.List.{Sublistᴰ as IsSublist}
use pc_unlock_project.Service.Relay.{
  Ticket, tickets, Turn, ask, answer, lost, Turn-sublist, sublist-append,
}
use pc_unlock_project.Service.Races.{
  Access, store_client, store_number, reply_of, stored_clients, answered_clients, IsKnown,
  mixed-answered, Variables, stores_client, stores_number, takes, replies, access, accesses,
  take_client,
}

-- If the stores of two requests mix in this order, the answer has the connection of one and the number
-- of the other.
mixed_up :
    (a b n m : ℕ) (v : Variables)
    → (b == 0) ≡ false
    → (accesses
        (stores_client a
          ∷ stores_client b
          ∷ stores_number m
          ∷ stores_number n
          ∷ takes
          ∷ replies true
          ∷ [])
        v).1
      ≡ (b, n) ∷ []
unfolding accesses access take_client
mixed_up a b n m v there = rw there refl

-- The variables of a service, while no answer is under way.
abbrev shared : {Store : Type 0} → ServiceState Store → Variables
shared s = record {
  pending_client = s.pending_lock_client_id;
  pending_number = s.pending_lock_message_id;
  taken = 0;
}

-- The handlers, when no other comes between, are their accesses one after the other.
module _ {Store : Type 0} where
  forward_lock-accesses :
      (client : ℕ) (header : FrameHeader) (payload : Bytes) (s : ServiceState Store)
      → accesses (stores_client client ∷ stores_number header.message_id ∷ []) (shared s)
        ≡ (shared (forward_lock client header payload s).0, [])
  unfolding accesses access take_client forward_lock
  forward_lock-accesses client header payload s = refl

  handle_lock_response-accesses :
      (payload : Bytes) (s : ServiceState Store)
      → accesses (takes ∷ replies s.has_network_engine ∷ []) (shared s)
        ≡ (shared (handle_lock_response payload s).0, tickets (handle_lock_response payload s).1)
  unfolding accesses access take_client handle_lock_response relayed set_state service_header
  handle_lock_response-accesses payload s =
      elim (Bool-cases (not (s.pending_lock_client_id == 0) && s.has_network_engine)) [
        | inl e ↦ rw e refl
        | inr e ↦ rw e refl
      ]

-- The handlers of a LOCK_REQUEST, with its connection and number, and of a LOCK_RESPONSE.
pub data Handler : Type 0 where
  asks : ℕ → ℕ → Handler
  responds : Bool → Handler

-- The accesses of handlers that run one after the other.
abbrev pub whole : List Handler → List Access
whole [] = []
whole (asks client number ∷ later) = stores_client client ∷ stores_number number ∷ whole later
whole (responds engine ∷ later) = takes ∷ replies engine ∷ whole later

abbrev pub asked : List Handler → List Ticket
asked [] = []
asked (asks client number ∷ later) = (client, number) ∷ asked later
asked (responds engine ∷ later) = asked later

abbrev waits : Variables → List Ticket
waits v = if v.pending_client == 0 then [] else (v.pending_client, v.pending_number) ∷ []

asked-Turn :
    (client number : ℕ) (v : Variables)
    → Turn
        (waits v)
        (waits (store_number number (store_client client v)))
        ((client, number) ∷ [])
        []
asked-Turn client number v = elim (Bool-cases (client == 0)) [
  | inl e ↦ rw e (ask (client, number) [] (inl refl))
  | inr e ↦ rw e (ask (client, number) ((client, number) ∷ []) (inr refl))
]

responded-Turn :
    (engine : Bool) (v : Variables) → Turn (waits v) [] [] (reply_of engine (take_client v))
unfolding take_client
responded-Turn engine v = elim (Bool-cases (v.pending_client == 0)) [
  | inl e ↦ rw e lost
  | inr e ↦ elim (Bool-cases engine) [ inl f ↦ rw (e, f) (answer _ refl) | inr f ↦ rw (e, f) lost ]
]

whole-answered :
    (handlers : List Handler) (v : Variables)
    → IsSublist (accesses (whole handlers) v).1 (waits v ++ asked handlers)
unfolding accesses access take_client
whole-answered [] v = sublist-append (waits v) [] [] IsSublist.slnil
whole-answered (asks client number ∷ later) v =
    let after = store_number number (store_client client v) in
    Turn-sublist (waits v) (asked later) (accesses (whole later) after).1
      (asked-Turn client number v) (whole-answered later after)
whole-answered (responds engine ∷ later) v =
    let after : Variables = record (take_client v) { taken = 0 } in
    Turn-sublist (waits v) (asked later) (accesses (whole later) after).1 (responded-Turn engine v)
      (whole-answered later after)

-- The accesses of HandleNetworkFrame on the threads of the phones and of HandleIpcMessage on the thread
-- of the pipe, mixed in any order, from variables that hold no client: the connections that get an
-- answer are, in order, connections that asked, each request answered at most once, and the number of
-- an answer is the one that was there at the start or that of a request. If the handlers run one after
-- the other, connection and number of an answer are those of one and the same request.
pub accesses-answered :
    (order : List Access) (handlers : List Handler) (v : Variables)
    → v.pending_client ≡ 0
    → v.taken ≡ 0
    → IsSublist (answered_clients (accesses order v).1) (stored_clients order)
      × All (IsKnown v order) (accesses order v).1
      × IsSublist (accesses (whole handlers) v).1 (asked handlers)
accesses-answered order handlers v none_waits none_taken =
    let e : waits v ≡ [] = rw none_waits refl in
    let (clients, numbers) = mixed-answered order v none_waits none_taken in
    (clients, numbers, rw e at (whole-answered handlers v))
