-- ===== src/Service/Devices.antt =====
-- windows/service/MobileUnlockService.cpp: which device a payload names.
use pc_unlock_project.Common.{
  ◌+◌, ◌<◌, ◌≡◌, refl, Bool, true, false, ltb, if◌then◌else◌, Option, none, some, Bytes, codes,
  length, take, drop, arith, length-take, length-drop, Option-cases, Bool-cases, inl, inr, ◌==◌,
  not, ltb→lt,
}
use pc_unlock_project.Protocol.Types.{canonical_signed_message_size}
use pc_unlock_project.Protocol.SignedMessage.{deserialize_signed_message}
use pc_unlock_project.Text.Search.{find_text}
use pc_unlock_project.Pairing.Identity.{DeviceId, device_id_from_string}

abbrev pub device_key : Bytes
device_key = codes "\"deviceId\":\""

-- The identity in a JSON payload, read into `out`, and whether it was read.
unfoldable pub json_device : Bytes → DeviceId → Bool × DeviceId
json_device payload out = elim (find_text device_key payload) [
  | none ↦ (false, out)
  | some pos ↦ device_id_from_string (take 36 (drop (pos + 12) payload)) out
]

-- The identity of an AUTH_REQUEST. `out` is what the variable of the code holds before, which the
-- code does not set.
unfoldable pub auth_request_device : Bytes → DeviceId → DeviceId
auth_request_device payload out =
    if ltb (length payload) 16 then (json_device payload out).1 else take 16 payload

abbrev of_json : Bool × DeviceId → Option DeviceId
of_json (true, id) = some id
of_json (false, id) = none

unfoldable pub raw_device : Bytes → DeviceId → Option DeviceId
raw_device payload out =
    if ltb (length payload) 16 then of_json (json_device payload out) else some (take 16 payload)

-- The identity of a LOCK_REQUEST, if `hasDeviceId` is set at the end.
unfoldable pub lock_request_device : Bytes → DeviceId → Option DeviceId
lock_request_device payload out =
    if ltb (length payload) canonical_signed_message_size
    then raw_device payload out
    else elim (deserialize_signed_message (take canonical_signed_message_size payload)) [
      | none ↦ raw_device payload out
      | some m ↦ some m.device_identity
    ]

not_36 : (s : Bytes) (out : DeviceId) → length s < 36 → device_id_from_string s out ≡ (false, out)
unfolding device_id_from_string
not_36 s out h = let e : not (length s == 36) ≡ true = ground arith in rw e refl

-- A payload that is short enough to be searched for an identity is too short to hold one.
pub json_device_short :
    (payload : Bytes) (out : DeviceId)
    → length payload < 48
    → json_device payload out ≡ (false, out)
unfolding json_device
json_device_short payload out h = elim (Option-cases (find_text device_key payload)) [
  | inl missing ↦ rw (missing, json_device) refl
  | inr (pos, e) ↦
      rw (e, json_device)
        (not_36 _ out
          (omega (arith, length-take 36 (drop (pos + 12) payload), length-drop (pos + 12) payload)))
]

-- The identity of an AUTH_REQUEST is its first 16 bytes, whatever they are; of a shorter payload it
-- is what the variable held before. A JSON payload is never read.
pub auth_request_device_lem :
    (payload : Bytes) (out : DeviceId)
    → auth_request_device payload out ≡ (if ltb (length payload) 16 then out else take 16 payload)
unfolding auth_request_device
auth_request_device_lem payload out = elim (Bool-cases (ltb (length payload) 16)) [
  | inl short ↦
      let less : length payload < 48 = omega (arith, ltb→lt (length payload) 16 short) in
      rw (short, json_device_short payload out less) refl
  | inr long ↦ rw long refl
]
