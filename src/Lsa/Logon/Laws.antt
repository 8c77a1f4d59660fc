-- ===== src/Lsa/Logon/Laws.antt =====
-- When `LogonUserEx2` grants a logon, and what it leaves on the heap.
use pc_unlock_project.Common.{◌≤◌, ◌≡◌, ◌≢◌, Bool, true, [], some, Bytes, length}
use pc_unlock_project.Common.Assoc.{nat_eq}
use pc_unlock_project.Protocol.SignedMessage.{SignedMessage, deserialize_signed_message}
use pc_unlock_project.Pairing.Identity.{device_id_to_string}
use pc_unlock_project.Pairing.Record.{DeviceRecord, Devices, status_active}
use pc_unlock_project.Lsa.Logon.{logon_buffer_of_memory}

-- The conditions on the buffer, its message, the device and the signature.
pub record Authorises (E : Devices) (verify : Bytes → SignedMessage → Bytes → Bool) (bs : Bytes)
    (store : E.Store) (m : SignedMessage) (r : DeviceRecord) : Type 0 where
  pub size : 180 ≤ length bs
  pub magic : (logon_buffer_of_memory bs).magic ≡ 0x4D554C53
  pub version : (logon_buffer_of_memory bs).version ≡ 1
  pub reserved : (logon_buffer_of_memory bs).reserved ≡ 0
  pub parsed : deserialize_signed_message (logon_buffer_of_memory bs).canonical_message ≡ some m
  pub protocol : m.protocol_version ≡ 0x0100
  pub same_device : m.device_identity ≡ (logon_buffer_of_memory bs).device_id
  pub operation : m.operation ≡ 0x22
  pub known :
      E.read_device_record (device_id_to_string (logon_buffer_of_memory bs).device_id) store
      ≡ some r
  pub active : r.pair_status ≡ status_active
  pub keyed : r.public_key ≢ []
  pub verified : verify r.public_key m (logon_buffer_of_memory bs).signature ≡ true
