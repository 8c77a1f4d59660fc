-- ===== src/Service/Authority.antt =====
-- windows/service/MobileUnlockService.cpp: which requests to lock reach the agent.
use pc_unlock_project.Common.{
  ℕ, ◌≤◌, ◌<◌, ◌≡◌, sym, ◌∙◌, ◌↔◌, ◌⊎◌, inl, inr, refl, Bool, true, false, not, ◌&&◌, ltb, List, [],
  ◌∷◌, Option, none, some, Bytes, length, take, arith, Bool-cases, Option-cases, ltb→lt,
}
use pc_unlock_project.Protocol.Frame.{FrameHeader}
use pc_unlock_project.Protocol.SignedMessage.{SignedMessage, deserialize_signed_message}
use pc_unlock_project.Pairing.Identity.{DeviceId, device_id_to_string}
use pc_unlock_project.Pairing.Record.{Devices, is_device_active}
use pc_unlock_project.Service.State.{ServiceState, Output, to_phone, to_agent, logged}
use pc_unlock_project.Service.Devices.{lock_request_device, raw_device, json_device_short}
use pc_unlock_project.Service.Frames.{
  Surroundings, handle_lock_request, is_unauthorized, lock_failure, forward_lock,
}

-- The device that a payload names: that of the signed message at its front, else its first bytes.
pub data Names (payload : Bytes) : DeviceId → Type 0 where
  signed :
      (m : SignedMessage)
      → 88 ≤ length payload
      → deserialize_signed_message (take 88 payload) ≡ some m
      → Names payload m.device_identity
  raw :
      16 ≤ length payload
      → (length payload < 88) ⊎ (deserialize_signed_message (take 88 payload) ≡ none)
      → Names payload (take 16 payload)

raw_device_short :
    (payload : Bytes) (out : DeviceId) → length payload < 16 → raw_device payload out ≡ none
unfolding raw_device
raw_device_short payload out h =
    let short : ltb (length payload) 16 ≡ true = ground arith in
    rw (short, json_device_short payload out (omega arith)) refl

raw_device_long :
    (payload : Bytes) (out : DeviceId)
    → 16 ≤ length payload
    → raw_device payload out ≡ some (take 16 payload)
unfolding raw_device
raw_device_long payload out h =
    let long : ltb (length payload) 16 ≡ false = ground arith in rw long refl

pub lock_request_device_short :
    (payload : Bytes) (out : DeviceId)
    → length payload < 16
    → lock_request_device payload out ≡ none
unfolding lock_request_device
lock_request_device_short payload out h =
    let short : ltb (length payload) 88 ≡ true = ground arith in
    rw (short, raw_device_short payload out h) refl

-- A longer payload names a device, and that is the one that the code takes.
pub lock_request_device_long :
    (payload : Bytes) (out : DeviceId)
    → 16 ≤ length payload
    → (id : DeviceId) × (lock_request_device payload out ≡ some id) × Names payload id
unfolding lock_request_device
lock_request_device_long payload out h = elim (Bool-cases (ltb (length payload) 88)) [
  | inl short ↦ (
    take 16 payload,
    rw short (raw_device_long payload out h),
    raw h (inl (ltb→lt (length payload) 88 short)),
  )
  | inr full ↦
      let long : 88 ≤ length payload = ground arith in
      elim (Option-cases (deserialize_signed_message (take 88 payload))) [
        | inl bad ↦
            (take 16 payload, rw (full, bad) (raw_device_long payload out h), raw h (inr bad))
        | inr (m, e) ↦ (m.device_identity, rw (full, e) refl, signed m long e)
      ]
]

never_raw :
    (payload : Bytes) (m : SignedMessage)
    → 88 ≤ length payload
    → deserialize_signed_message (take 88 payload) ≡ some m
    → (length payload < 88) ⊎ (deserialize_signed_message (take 88 payload) ≡ none)
    → ⊥
never_raw payload m long e (inl short) = omega arith
never_raw payload m long e (inr bad) = ground (arith, bad, e)

pub Names-unique :
    (payload : Bytes) {id other : DeviceId} → Names payload id → Names payload other → id ≡ other
Names-unique payload (signed m long e) (signed k long2 f) = ground (arith, e, f)
Names-unique payload (signed m long e) (raw h bad) = absurd (never_raw payload m long e bad)
Names-unique payload (raw h bad) (signed m long e) = absurd (never_raw payload m long e bad)
Names-unique payload (raw h bad) (raw h2 bad2) = refl

abbrev pub reaches_agent : List Output → Bool
reaches_agent [] = false
reaches_agent (to_agent message ∷ rest) = true
reaches_agent (to_phone client header payload ∷ rest) = reaches_agent rest
reaches_agent (logged event ∷ rest) = reaches_agent rest

-- What lets a request pass: the agent is there, and the device that the payload names is active, if
-- the payload is long enough to name one.
abbrev pub MayLock : (E : Devices) → Surroundings → Bytes → ServiceState E.Store → Type 0
MayLock E w payload s =
    ((s.has_ipc_server && w.agent_connected) ≡ true)
    × ((length payload < 16)
        ⊎ ((id : DeviceId) × Names payload id
            × (is_device_active E (device_id_to_string id) s.store ≡ true)))

pub Names-length : {payload : Bytes} {id : DeviceId} → Names payload id → 16 ≤ length payload
Names-length (signed m long e) = omega arith
Names-length (raw h bad) = h

true_of_not : (b : Bool) → not b ≡ false → b ≡ true
true_of_not b h = ground arith

pub authorized-active :
    (E : Devices) (o : Option DeviceId) (id : DeviceId) (store : E.Store)
    → o ≡ some id
    → is_unauthorized E o store ≡ not (is_device_active E (device_id_to_string id) store)
authorized-active E o id store e = rw e refl

module _ (E : Devices) (w : Surroundings) (client : ℕ) (header : FrameHeader) (payload : Bytes)
    (s : ServiceState E.Store) where
  abbrev handled : Bool
  handled = reaches_agent (handle_lock_request E w client header payload s).1

  abbrev device : Option DeviceId
  device = lock_request_device payload w.unset

  pub handled-cases :
      handled ≡ (not (is_unauthorized E device s.store) && (s.has_ipc_server && w.agent_connected))
  unfolding handle_lock_request lock_failure forward_lock
  handled-cases = elim (Bool-cases (is_unauthorized E device s.store)) [
    | inl refused ↦ rw refused refl
    | inr passed ↦ elim (Bool-cases (s.has_ipc_server && w.agent_connected)) [
      | inl connected ↦ rw (passed, connected) refl
      | inr missing ↦ rw (passed, missing) refl
    ]
  ]

  passes : (b c : Bool) → (not b && c) ≡ true → (b ≡ false) × (c ≡ true)
  passes b c h = ground arith

  handled-MayLock : handled ≡ true → MayLock E w payload s
  handled-MayLock h =
      let (passed, connected) =
        passes (is_unauthorized E device s.store) (s.has_ipc_server && w.agent_connected)
          (sym handled-cases ∙ h) in
      elim (Bool-cases (ltb (length payload) 16)) [
        | inl short ↦ (connected, inl (ltb→lt (length payload) 16 short))
        | inr full ↦
            let long : 16 ≤ length payload = ground arith in
            let (id, e, named) = lock_request_device_long payload w.unset long in
            (
              connected,
              inr (
                id,
                named,
                true_of_not _ (sym (authorized-active E device id s.store e) ∙ passed),
              ),
            )
      ]

  MayLock-handled : MayLock E w payload s → handled ≡ true
  MayLock-handled (connected, inl short) =
      handled-cases ∙ rw (lock_request_device_short payload w.unset short, connected) refl
  MayLock-handled (connected, inr (id, named, active)) =
      let (other, e, named2) = lock_request_device_long payload w.unset (Names-length named) in
      let same : other ≡ id = Names-unique payload named2 named in
      handled-cases ∙ rw (authorized-active E device other s.store e, same, active, connected) refl

  -- A request to lock reaches the agent exactly if the agent is there and the device that the
  -- payload names is active; a payload of less than 16 bytes names none and is not checked. Neither
  -- the signature nor a challenge plays a part.
  pub handle_lock_request-forwards_iff : (handled ≡ true) ↔ MayLock E w payload s
  handle_lock_request-forwards_iff = (handled-MayLock, MayLock-handled)

  -- What passes is handed on as it is.
  pub MayLock-forward :
      MayLock E w payload s
      → handle_lock_request E w client header payload s ≡ forward_lock client header payload s
  unfolding handle_lock_request
  MayLock-forward may =
      let (passed, connected) =
        passes (is_unauthorized E device s.store) (s.has_ipc_server && w.agent_connected)
          (sym handled-cases ∙ MayLock-handled may) in
      rw (passed, connected) refl
