-- ===== src/Tests/Registries.antt =====
-- The theorems on the registry of devices, at a phone's record in a registry in memory.
use pc_unlock_project.Common.{
  Bool, ◌≡◌, ◌⊎◌, refl, true, false, [], ◌∷◌, ◌++◌, some, none, Bytes, arith, codes, replicate, inl,
  bytes_eq,
}
use pc_unlock_project.Protocol.Frame.{default_header}
use pc_unlock_project.Protocol.SignedMessage.{SignedMessage, default_message}
use pc_unlock_project.Pairing.Identity.{device_id_to_string}
use pc_unlock_project.Text.Hex.{bytes_to_hex, byte_hex}
use pc_unlock_project.Pairing.Record.{DeviceRecord, Devices, status_revoked}
use pc_unlock_project.Pairing.Messages.{json_get_string}
use pc_unlock_project.Text.Search.{find_text}
use pc_unlock_project.Pairing.Messages.{until_quote, skip_separators}
use pc_unlock_project.Pairing.Manager.State.{PairingManager}
use pc_unlock_project.Pairing.Manager.Confirm.{handle_unpair_request}
use pc_unlock_project.Auth.Types.{initial_state, unknown_device, rate_limited}
use pc_unlock_project.Auth.Request.{handle_auth_request}
use pc_unlock_project.Lsa.Package.{status_no_such_user}
use pc_unlock_project.Lsa.Logon.{decide_device, denies}
use pc_unlock_project.Service.State.{new_service}
use pc_unlock_project.Service.Frames.{Surroundings, handle_lock_request}
use pc_unlock_project.Service.Authority.{raw, reaches_agent}
use pc_unlock_project.Registry.Clients.{registry_devices}
use pc_unlock_project.Registry.Revocation.{handle_unpair_request-refused}
use pc_unlock_project.Registry.Win32.{WinRegistry, hkey_local_machine, same}
use pc_unlock_project.Registry.Values.{
  build_device_key_path, to_wide, to_narrow, device_registry_root,
}
use pc_unlock_project.Registry.Records.{
  RegistryState, converted, empty_record, write_device_record, read_device_record,
  set_device_status, update_last_seen,
}
use pc_unlock_project.Registry.RoundTrip.{IsStorable, read_device_record-write_device_record}
use pc_unlock_project.Registry.Changes.{registered, read_device_record-changes}
use pc_unlock_project.Registry.Isolation.{read_device_record-write_device_record_other}
use pc_unlock_project.Registry.Enumeration.{
  enumerate_device_ids, enumerate_device_ids_lem, enumerate_from, enumerate_from-failing,
}
use pc_unlock_project.Tests.KeyStore.{key_store, key_store_laws, Key}
use pc_unlock_project.Tests.Samples.{phone, phone_text, phone_record}

abbrev empty_registry : RegistryState key_store
empty_registry = record { root = hkey_local_machine; store = record { keys = []; values = [] } }

phone_record-IsStorable : IsStorable phone_record
phone_record-IsStorable = record {
  id_length = refl;
  id_bytes = ground arith;
  name_bytes = ground arith;
  name_length = ground arith;
  sid_bytes = ground arith;
  sid_length = ground arith;
  keyed = ground arith;
  key_length = ground arith;
  status = ground arith;
  paired_high = ground arith;
  paired_low = ground arith;
  seen_high = ground arith;
  seen_low = ground arith;
}

read_device_record-write_device_record_example :
    ((write_device_record key_store converted phone_record empty_registry).0 ≡ 0)
    × (read_device_record key_store
          (device_id_to_string phone)
          empty_record
          (write_device_record key_store converted phone_record empty_registry).1
        ≡ (0, phone_record))
read_device_record-write_device_record_example =
    read_device_record-write_device_record key_store key_store_laws converted phone_record
      empty_record empty_registry phone_record-IsStorable refl

abbrev root_key : Key
root_key = record { root = hkey_local_machine; path = device_registry_root }

abbrev phone_key : Key
phone_key = record {
  root = hkey_local_machine;
  path = device_registry_root ++ codes "\\11111111-1111-1111-1111-111111111111";
}

-- The phone is registered, with no values.
abbrev with_phone : RegistryState key_store
with_phone = record {
  root = hkey_local_machine;
  store = record { keys = phone_key ∷ root_key ∷ []; values = [] };
}

abbrev other_record : DeviceRecord
other_record = record phone_record { device_id = replicate 16 0x22 }

phone_registered : registered key_store key_store_laws phone_text with_phone ≡ true
unfolding key_store_laws bytes_eq build_device_key_path to_wide
phone_registered = refl

read_device_record-changes_example :
    (read_device_record key_store phone_text empty_record
        (set_device_status key_store phone_text status_revoked with_phone).1
      ≡ (
        0,
        record (read_device_record key_store phone_text empty_record with_phone).1 {
          pair_status = status_revoked;
        },
      ))
    × (read_device_record key_store phone_text empty_record
          (update_last_seen key_store (record { high = 3; low = 4 }) phone_text with_phone).1
        ≡ (
          0,
          record (read_device_record key_store phone_text empty_record with_phone).1 {
            last_seen = record { high = 3; low = 4 };
          },
        ))
read_device_record-changes_example =
    read_device_record-changes key_store key_store_laws phone_text status_revoked
      (record { high = 3; low = 4 }) empty_record with_phone phone_registered (omega arith)
      (omega arith) (omega arith)

others_key :
    same
      (build_device_key_path (device_id_to_string other_record.device_id))
      (build_device_key_path phone_text)
    ≡ false
unfolding bytes_eq build_device_key_path to_wide device_id_to_string bytes_to_hex byte_hex
others_key = refl

read_device_record-write_device_record_other_example :
    read_device_record key_store phone_text empty_record
      (write_device_record key_store converted other_record with_phone).1
    ≡ read_device_record key_store phone_text empty_record with_phone
read_device_record-write_device_record_other_example =
    read_device_record-write_device_record_other key_store key_store_laws converted other_record
      phone_text empty_record with_phone others_key phone_registered

enumerate_device_ids_lem_example :
    enumerate_device_ids key_store 2 with_phone ≡ some (phone_text ∷ [])
unfolding key_store_laws bytes_eq to_narrow
enumerate_device_ids_lem_example =
    enumerate_device_ids_lem key_store key_store_laws 2 with_phone (omega arith) (omega arith)

-- The key was deleted behind the handle: each call answers 1018, ERROR_KEY_DELETED.
abbrev deleted_store : WinRegistry
deleted_store = record key_store { enum_key = λ r p i capacity s. (1018, []) }

abbrev empty_deleted : RegistryState deleted_store
empty_deleted = record { root = hkey_local_machine; store = record { keys = []; values = [] } }

enumerate_from-failing_example : enumerate_from deleted_store 1000 0 empty_deleted ≡ none
enumerate_from-failing_example =
    enumerate_from-failing deleted_store 1000 0 1018 empty_deleted (ground arith) (ground arith)
      (λ i. refl)

abbrev goodbye : Bytes
goodbye = codes "{\"deviceId\":\"11111111-1111-1111-1111-111111111111\"}"

goodbye_names : json_get_string goodbye (codes "deviceId") ≡ device_id_to_string phone
unfolding json_get_string until_quote skip_separators find_text bytes_eq device_id_to_string
    bytes_to_hex byte_hex
goodbye_names = refl

phone_leaf :
    key_store_laws.subkeys hkey_local_machine
      (build_device_key_path (device_id_to_string phone))
      with_phone.store
    ≡ []
unfolding key_store_laws bytes_eq build_device_key_path to_wide device_id_to_string bytes_to_hex
    byte_hex
phone_leaf = refl

abbrev no_pairing : PairingManager
no_pairing = record { sessions = []; rate_limit_map = [] }

abbrev unpaired : RegistryState key_store
unpaired =
    (handle_unpair_request (registry_devices key_store converted (record { high = 3; low = 4 }) 5)
      goodbye no_pairing with_phone).store

abbrev accepts_all : Bytes → SignedMessage → Bytes → Bool
accepts_all key m signature = true

abbrev at_noon : Surroundings
at_noon = record { now = 1000; random = none; unset = replicate 16 0; agent_connected = true }

abbrev devices : Devices
devices = registry_devices key_store converted (record { high = 3; low = 4 }) 5

handle_unpair_request-refused_example :
    (((handle_auth_request devices 1000 none phone default_header default_header initial_state
          unpaired).code
        ≡ unknown_device)
      ⊎ ((handle_auth_request devices 1000 none phone default_header default_header initial_state
            unpaired).code
          ≡ rate_limited))
    × (decide_device devices accepts_all phone default_message [] unpaired
        ≡ denies status_no_such_user)
    × (reaches_agent
          (handle_lock_request devices at_noon 5 default_header phone
            (record (new_service 0 with_phone) { store = unpaired })).1
        ≡ false)
handle_unpair_request-refused_example =
    handle_unpair_request-refused key_store key_store_laws converted (record { high = 3; low = 4 })
      5 goodbye no_pairing with_phone phone 1000 none default_header default_header initial_state
      accepts_all default_message [] at_noon 5 default_header phone (new_service 0 with_phone) refl
      goodbye_names phone_leaf (raw (omega arith) (inl (omega arith)))
