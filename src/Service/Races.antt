-- ===== src/Service/Races.antt =====
-- windows/service/MobileUnlockService.cpp: the accesses to m_pendingLockClientId and
-- m_pendingLockMessageId. HandleNetworkFrame runs on one thread for each client and HandleIpcMessage on
-- the thread of the pipe, without a lock: every access is atomic, and they mix in any order.
pub mod Handlers
use mathlib.Core.List.{Sublistᴰ as IsSublist}
use pc_unlock_project.Common.{
  ℕ, ◌≡◌, ◌≢◌, refl, Bool, true, false, not, ◌&&◌, ◌==◌, if◌then◌else◌, List, [], ◌∷◌, ◌++◌, Bytes,
  All, ◌||◌, Bool-cases, inl, inr, arith,
}
use pc_unlock_project.Service.Relay.{Ticket, sublist-append}

-- The two shared variables, and the local `client` of HandleIpcMessage, 0 while no LOCK_RESPONSE is
-- handled. One thread serves the pipe, so there is one such local.
pub record Variables : Type 0 where
  pub pending_client : ℕ
  pub pending_number : ℕ
  pub taken : ℕ

-- `stores_client` and `stores_number` are those of a LOCK_REQUEST, `takes` is the exchange with 0 of a
-- LOCK_RESPONSE, `replies` its load of the number with the test and the answer to the phone; its
-- argument is whether there is a network engine.
pub data Access : Type 0 where
  stores_client stores_number : ℕ → Access
  takes : Access
  replies : Bool → Access

abbrev pub store_client : ℕ → Variables → Variables
store_client client v = record v { pending_client = client }

abbrev pub store_number : ℕ → Variables → Variables
store_number number v = record v { pending_number = number }

unfoldable pub take_client : Variables → Variables
take_client v = record v { taken = v.pending_client; pending_client = 0 }

abbrev pub reply_of : Bool → Variables → List Ticket
reply_of engine v = if not (v.taken == 0) && engine then (v.taken, v.pending_number) ∷ [] else []

unfoldable pub access : Access → Variables → Variables × List Ticket
access (stores_client client) v = (store_client client v, [])
access (stores_number number) v = (store_number number v, [])
access takes v = (take_client v, [])
access (replies engine) v = (record v { taken = 0 }, reply_of engine v)

-- The variables after accesses in this order, and what was answered.
unfoldable pub accesses : List Access → Variables → Variables × List Ticket
accesses [] v = (v, [])
accesses (a ∷ later) v =
    let first = access a v in let rest = accesses later first.0 in (rest.0, first.1 ++ rest.1)

-- The clients and the numbers that are stored, in order.
abbrev pub stored_clients : List Access → List ℕ
stored_clients [] = []
stored_clients (stores_client client ∷ later) = client ∷ stored_clients later
stored_clients (_ ∷ later) = stored_clients later

abbrev pub stored_numbers : List Access → List ℕ
stored_numbers [] = []
stored_numbers (stores_number number ∷ later) = number ∷ stored_numbers later
stored_numbers (_ ∷ later) = stored_numbers later

abbrev pub answered_clients : List Ticket → List ℕ
answered_clients [] = []
answered_clients (t ∷ ts) = t.0 ∷ answered_clients ts

-- A client that a variable holds; 0 is none.
abbrev held : ℕ → List ℕ
held client = if client == 0 then [] else client ∷ []

-- The clients that can still be answered: the one that is taken, the one that is stored, and later ones.
abbrev ahead : Variables → List ℕ → List ℕ
ahead v later = held v.taken ++ (held v.pending_client ++ later)

answered_clients-append :
    (xs ys : List Ticket) → answered_clients (xs ++ ys) ≡ answered_clients xs ++ answered_clients ys
answered_clients-append [] ys = refl
answered_clients-append (x ∷ xs) ys = rw (answered_clients-append xs ys) refl

widen : (zs xs ys : List ℕ) (d : ℕ) → IsSublist xs (zs ++ ys) → IsSublist xs (zs ++ (d ∷ ys))
widen [] xs ys d h = IsSublist.cons h
widen (z ∷ zs) xs ys d (IsSublist.cons h) = IsSublist.cons (widen zs xs ys d h)
widen (z ∷ zs) (x ∷ xs) ys d (IsSublist.cons-cons e h) = IsSublist.cons-cons e (widen zs xs ys d h)

store_ahead :
    (zs xs later : List ℕ) (old client : ℕ)
    → IsSublist xs (zs ++ (held client ++ later))
    → IsSublist xs (zs ++ (held old ++ (client ∷ later)))
store_ahead zs xs later old client h =
    let stored : IsSublist xs (zs ++ (client ∷ later)) = elim (Bool-cases (client == 0)) [
      | inl none_held ↦ widen zs xs later client (rw none_held at h)
      | inr one_held ↦ rw one_held at h
    ] in
    elim (Bool-cases (old == 0)) [
      | inl e ↦ rw e stored
      | inr e ↦ rw e (widen zs xs (client ∷ later) old stored)
    ]

reply_ahead :
    (engine : Bool) (v : Variables) (xs later : List ℕ)
    → IsSublist xs later
    → IsSublist (answered_clients (reply_of engine v) ++ xs) (held v.taken ++ later)
reply_ahead engine v xs later h = elim (Bool-cases (v.taken == 0)) [
  | inl e ↦ rw e h
  | inr e ↦ elim (Bool-cases engine) [
    | inl f ↦ rw (e, f) (IsSublist.cons-cons refl h)
    | inr f ↦ rw (e, f) (IsSublist.cons h)
  ]
]

answered-ahead :
    (order : List Access) (v : Variables)
    → IsSublist (answered_clients (accesses order v).1) (ahead v (stored_clients order))
unfolding accesses access take_client
answered-ahead [] v =
    sublist-append (held v.taken) _ _ (sublist-append (held v.pending_client) _ _ IsSublist.slnil)
answered-ahead (stores_client client ∷ later) v =
    store_ahead (held v.taken) _ (stored_clients later) v.pending_client client
      (answered-ahead later (store_client client v))
answered-ahead (stores_number number ∷ later) v = answered-ahead later (store_number number v)
answered-ahead (takes ∷ later) v =
    sublist-append (held v.taken) _ _ (answered-ahead later (take_client v))
answered-ahead (replies engine ∷ later) v =
    rw (answered_clients-append (reply_of engine v) (accesses later (record v { taken = 0 })).1)
      (reply_ahead engine v _ _ (answered-ahead later (record v { taken = 0 })))

abbrev pub occurs : ℕ → List ℕ → Bool
occurs n [] = false
occurs n (x ∷ xs) = n == x || occurs n xs

-- The numbers that an answer can have.
abbrev pub IsKnown : Variables → List Access → Ticket → Type 0
IsKnown v order t = occurs t.1 (v.pending_number ∷ stored_numbers order) ≡ true

IsKnown-weaken :
    (n m : ℕ) (ns : List ℕ) (ts : List Ticket)
    → All (λ (t : Ticket). occurs t.1 (m ∷ ns) ≡ true) ts
    → All (λ (t : Ticket). occurs t.1 (n ∷ (m ∷ ns)) ≡ true) ts
IsKnown-weaken n m ns [] a = tt
IsKnown-weaken n m ns (t ∷ ts) (k, a) = (ground (arith, k), IsKnown-weaken n m ns ts a)

reply-IsKnown :
    (engine : Bool) (v : Variables) (ns : List ℕ) (ts : List Ticket)
    → All (λ (t : Ticket). occurs t.1 (v.pending_number ∷ ns) ≡ true) ts
    → All (λ (t : Ticket). occurs t.1 (v.pending_number ∷ ns) ≡ true) (reply_of engine v ++ ts)
reply-IsKnown engine v ns ts a = elim (Bool-cases (not (v.taken == 0) && engine)) [
  | inl e ↦ rw e (ground arith, a)
  | inr e ↦ rw e a
]

answered-IsKnown :
    (order : List Access) (v : Variables) → All (IsKnown v order) (accesses order v).1
unfolding accesses access take_client
answered-IsKnown [] v = tt
answered-IsKnown (stores_client client ∷ later) v = answered-IsKnown later (store_client client v)
answered-IsKnown (stores_number number ∷ later) v =
    IsKnown-weaken v.pending_number number (stored_numbers later) _
      (answered-IsKnown later (store_number number v))
answered-IsKnown (takes ∷ later) v = answered-IsKnown later (take_client v)
answered-IsKnown (replies engine ∷ later) v =
    reply-IsKnown engine v (stored_numbers later) _
      (answered-IsKnown later (record v { taken = 0 }))

-- In any order of the accesses.
pub mixed-answered :
    (order : List Access) (v : Variables)
    → v.pending_client ≡ 0
    → v.taken ≡ 0
    → IsSublist (answered_clients (accesses order v).1) (stored_clients order)
      × All (IsKnown v order) (accesses order v).1
mixed-answered order v none_waits none_taken = (
  let e : ahead v (stored_clients order) ≡ stored_clients order =
        rw (none_waits, none_taken) refl in
      rw e at (answered-ahead order v),
  answered-IsKnown order v,
)
