-- ===== src/Lsa/Logon.antt =====
-- windows/lsa_authentication_package/LsaPackage.cpp, LsaLogonBuffer.h: `LogonUserEx2`.
pub mod Laws
pub mod Blocks
pub mod Memory
use pc_unlock_project.Common.{
  ℕ, ◌+◌, ◌≡◌, Bool, true, false, not, ◌||◌, ltb, ◌==◌, if◌then◌else◌, List, [], ◌∷◌, map, Option,
  none, some, Bytes, bytes_eq, codes, length, take, drop, from_le,
}
use pc_unlock_project.Protocol.Types.{opcode, auth_response}
use pc_unlock_project.Protocol.SignedMessage.{SignedMessage, deserialize_signed_message}
use pc_unlock_project.Pairing.Identity.{DeviceId, device_id_to_string}
use pc_unlock_project.Pairing.Record.{DeviceRecord, Devices, status_active}
use pc_unlock_project.Lsa.Package.{
  Allocator, Heap, free_heap, create_unicode_string_on_lsa_heap, status_success,
  status_logon_failure, status_account_restriction, status_invalid_parameter, status_no_such_user,
  status_insufficient_resources, status_buffer_too_small,
}

abbrev pub lsa_submit_buffer_magic : ℕ
lsa_submit_buffer_magic = 0x4D55_4C53

abbrev pub lsa_submit_buffer_version : ℕ
lsa_submit_buffer_version = 1

-- MOBILE_UNLOCK_LSA_LOGON_BUFFER: 180 bytes, packed, integers as the host has them.
pub record LogonBuffer : Type 0 where
  pub magic : ℕ
  pub version : ℕ
  pub device_id : DeviceId
  pub reserved : ℕ
  pub canonical_message : Bytes
  pub signature : Bytes

abbrev pub logon_buffer_size : ℕ
logon_buffer_size = 180

abbrev pub logon_buffer_of_memory : Bytes → LogonBuffer
logon_buffer_of_memory bs = record {
  magic = from_le (take 4 bs);
  version = from_le (take 4 (drop 4 bs));
  device_id = take 16 (drop 8 bs);
  reserved = from_le (take 4 (drop 24 bs));
  canonical_message = take 88 (drop 28 bs);
  signature = take 64 (drop 116 bs);
}

-- Either a status other than success, or the device's record.
pub data Decision : Type 0 where
  denies : ℕ → Decision
  grants : DeviceRecord → Decision

module _ (E : Devices) (verify : Bytes → SignedMessage → Bytes → Bool) where
  unfoldable pub decide_device : DeviceId → SignedMessage → Bytes → E.Store → Decision
  decide_device id m signature store = elim (E.read_device_record (device_id_to_string id) store) [
    | none ↦ denies status_no_such_user
    | some r ↦
        if not (r.pair_status == status_active)
        then denies status_account_restriction
        else elim r.public_key [
          | [] ↦ denies status_logon_failure
          | _ ↦
              if not (verify r.public_key m signature)
              then denies status_logon_failure
              else grants r
        ]
  ]

  -- The text of an identity is never empty, so that test of the code has no branch here.
  unfoldable pub decide_message : LogonBuffer → SignedMessage → E.Store → Decision
  decide_message b m store =
      if not (m.protocol_version == 0x0100)
      then denies status_invalid_parameter
      else if not (bytes_eq m.device_identity b.device_id)
      then denies status_logon_failure
      else if not (m.operation == opcode auth_response)
      then denies status_logon_failure
      else decide_device b.device_id m b.signature store

  unfoldable pub decide_buffer : LogonBuffer → E.Store → Decision
  decide_buffer b store =
      if not (b.magic == lsa_submit_buffer_magic)
        || (not (b.version == lsa_submit_buffer_version) || not (b.reserved == 0))
      then denies status_invalid_parameter
      else elim (deserialize_signed_message b.canonical_message) [
        | none ↦ denies status_invalid_parameter
        | some m ↦ decide_message b m store
      ]

  -- `none` is a null pointer.
  unfoldable pub decide : Option Bytes → E.Store → Decision
  decide none store = denies status_invalid_parameter
  decide (some bs) store =
      if ltb (length bs) logon_buffer_size
      then denies status_buffer_too_small
      else decide_buffer (logon_buffer_of_memory bs) store

-- A char, which is signed, as a wchar_t.
abbrev widen : ℕ → ℕ
widen c = if ltb c 128 then c else c + 0xFF00

-- `account` is what the system makes of a SID text: a name, empty if there is none.
unfoldable pub target_user_name : (Bytes → List ℕ) → DeviceRecord → List ℕ
target_user_name account r = elim r.account_sid as (λ s. List ℕ) [
  | [] ↦ fallback r.device_name
  | c ∷ cs ↦ elim (account (c ∷ cs)) as (λ s. List ℕ) [
    | [] ↦ fallback r.device_name
    | d ∷ ds ↦ d ∷ ds
  ]
]
  where
    fallback : Bytes → List ℕ
    fallback [] = codes "MobileUnlockUser"
    fallback (c ∷ cs) = map widen (c ∷ cs)

-- Which out pointers are given.
pub record Wanted : Type 0 where
  pub sub_status : Bool
  pub account_name : Bool
  pub authority : Bool

-- What is returned: the status and, where a pointer is given, what is stored through it.
pub record LogonReply : Type 0 where
  pub status : ℕ
  pub sub_status : Option ℕ
  pub account_name : Option ℕ
  pub authority : Option ℕ
  pub heap : Heap

abbrev pub reply_with : Wanted → ℕ → Option ℕ → Option ℕ → Heap → LogonReply
reply_with w status name authority h = record {
  status = status;
  sub_status = if w.sub_status then some status else none;
  account_name = name;
  authority = authority;
  heap = h;
}

unfoldable pub give_authority : Allocator → Wanted → Option ℕ → Heap → LogonReply
give_authority alloc w name h =
    let (authority, h1) =
      create_unicode_string_on_lsa_heap alloc (codes "MobileFingerprintUnlock") h in
    if not w.authority then reply_with w status_success name none h else elim authority [
      | none ↦ reply_with w status_insufficient_resources none none (free_heap name h1)
      | some a ↦ reply_with w status_success name (some a) h1
    ]

unfoldable pub give_names : Allocator → Wanted → List ℕ → Heap → LogonReply
give_names alloc w user h =
    let (name, h1) = create_unicode_string_on_lsa_heap alloc user h in
    if not w.account_name then give_authority alloc w none h else elim name [
      | none ↦ reply_with w status_insufficient_resources none none h1
      | some a ↦ give_authority alloc w (some a) h1
    ]

unfoldable pub logon_user_ex2 :
    (E : Devices)
    → (Bytes → SignedMessage → Bytes → Bool)
    → (Bytes → List ℕ)
    → Allocator
    → Wanted
    → Option Bytes
    → E.Store
    → Heap
    → LogonReply
logon_user_ex2 E verify account alloc w buffer store h = elim (decide E verify buffer store) [
  | denies status ↦ reply_with w status none none h
  | grants r ↦ give_names alloc w (target_user_name account r) h
]
