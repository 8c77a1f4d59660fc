-- ===== src/Lsa/Logon/Memory.antt =====
-- What `LogonUserEx2` returns and leaves on the heap, on every branch.
use pc_unlock_project.Common.{
  ℕ, ◌+◌, ◌≡◌, ◌≢◌, refl, Bool, not, ◌||◌, ltb, ◌==◌, if◌then◌else◌, List, Option, none, some,
  Bytes, arith, if_cases, option_cases, list_cases, bytes_eq, length, ◌⊎◌,
}
use pc_unlock_project.Common.Assoc.{nat_eq}
use pc_unlock_project.Protocol.Types.{opcode, auth_response}
use pc_unlock_project.Protocol.SignedMessage.{SignedMessage, deserialize_signed_message}
use pc_unlock_project.Pairing.Identity.{device_id_to_string}
use pc_unlock_project.Pairing.Record.{DeviceRecord, Devices, status_active}
use pc_unlock_project.Lsa.Package.{Allocator, Heap, status_success}
use pc_unlock_project.Lsa.Logon.{
  LogonBuffer, logon_buffer_of_memory, Decision, denies, grants, decide, decide_buffer,
  decide_message, decide_device, Wanted, LogonReply, reply_with, give_names, target_user_name,
  logon_user_ex2,
}

-- The pointers and the heap after a call that began with the heap `h`.
abbrev count_of : Option ℕ → ℕ
count_of none = 0
count_of (some a) = 1

-- A reply is clean if its sub-status is its status, and if a failure leaves no pointer and the
-- blocks of before, a success one block for each pointer that is given.
pub record IsClean (w : Wanted) (h : Heap) (r : LogonReply) : Type 0 where
  pub same_status : r.sub_status ≡ (if w.sub_status then some r.status else none)
  pub outcome :
      ((r.status ≢ status_success)
        × (r.account_name ≡ none)
        × (r.authority ≡ none)
        × (r.heap.blocks ≡ h.blocks))
      ⊎ ((r.status ≡ status_success)
          × (count_of r.account_name ≡ (if w.account_name then 1 else 0))
          × (count_of r.authority ≡ (if w.authority then 1 else 0))
          × (length r.heap.blocks
              ≡ length h.blocks + count_of r.account_name + count_of r.authority))

-- A denial has a status other than success.
abbrev IsHonest : Decision → Type 0
IsHonest (denies status) = status ≢ status_success
IsHonest (grants r) = Unit

module _ (E : Devices) (verify : Bytes → SignedMessage → Bytes → Bool) where
  decide_message-IsHonest :
      (b : LogonBuffer) (m : SignedMessage) (store : E.Store)
      → IsHonest (decide_message E verify b m store)
  unfolding decide_message decide_device
  decide_message-IsHonest b m store =
      if_cases IsHonest (not (m.protocol_version == 0x0100)) _ _ (λ e x. omega arith)
        (λ e.
          if_cases IsHonest (not (bytes_eq m.device_identity b.device_id)) _ _ (λ e x. omega arith)
            (λ e.
              if_cases IsHonest (not (m.operation == opcode auth_response)) _ _ (λ e x. omega arith)
                (λ e.
                  option_cases IsHonest
                    (E.read_device_record (device_id_to_string b.device_id) store) _ _
                    (λ e x. omega arith)
                    (λ r e.
                      if_cases IsHonest (not (r.pair_status == status_active)) _ _
                        (λ e x. omega arith)
                        (λ e.
                          list_cases IsHonest r.public_key _ _ (λ e x. omega arith)
                            (λ e.
                              if_cases IsHonest (not (verify r.public_key m b.signature)) _ _
                                (λ e x. omega arith) (λ e. tt)))))))

  decide-IsHonest :
      (buffer : Option Bytes) (store : E.Store) → IsHonest (decide E verify buffer store)
  unfolding decide decide_buffer
  decide-IsHonest none store = λ x. omega arith
  decide-IsHonest (some bs) store =
      let b = logon_buffer_of_memory bs in
      if_cases IsHonest (ltb (length bs) 180) _ _ (λ e x. omega arith)
        (λ e.
          if_cases IsHonest
            (not (b.magic == 0x4D55_4C53) || (not (b.version == 1) || not (b.reserved == 0))) _ _
            (λ f x. omega arith)
            (λ f.
              option_cases IsHonest (deserialize_signed_message b.canonical_message) _ _
                (λ g x. omega arith) (λ m g. decide_message-IsHonest b m store)))

  -- The status is success only for a buffer that the package authorises.
  logon_user_ex2-success :
      (account : Bytes → List ℕ) (alloc : Allocator) (w : Wanted) (buffer : Option Bytes)
      (store : E.Store) (h : Heap)
      → (logon_user_ex2 E verify account alloc w buffer store h).status ≡ status_success
      → (r : DeviceRecord) × (decide E verify buffer store ≡ grants r)
  unfolding logon_user_ex2
  logon_user_ex2-success account alloc w buffer store h e =
      of_decision (decide E verify buffer store) (decide-IsHonest buffer store) e
    where
      of_decision :
          (d : Decision)
          → IsHonest d
          → (elim d as (λ q. LogonReply) [
            | denies status ↦ reply_with w status none none h
            | grants r ↦ give_names alloc w (target_user_name account r) h
          ]).status
            ≡ status_success
          → (r : DeviceRecord) × (d ≡ grants r)
      of_decision (denies status) honest e = absurd (honest e)
      of_decision (grants r) honest e = (r, refl)
