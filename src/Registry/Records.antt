-- ===== src/Registry/Records.antt =====
-- windows/pairing/DeviceRegistry.cpp: writing, reading and changing the record of a device. The type of
-- a value (REG_DWORD, REG_SZ and so on) is left out: the code never looks at it when it reads.
use pc_unlock_project.Common.{
  ℕ, not, ◌&&◌, ltb, ◌==◌, if◌then◌else◌, [], ◌∷◌, Option, none, some, Bytes, replicate, le_bytes,
  from_le, length,
}
use pc_unlock_project.Pairing.Identity.{device_id_to_string, device_id_from_string}
use pc_unlock_project.Pairing.Record.{DeviceRecord, status_revoked}
use pc_unlock_project.Pairing.SasPin.{FileTime}
use pc_unlock_project.Registry.Win32.{
  WinRegistry, Wide, error_success, error_access_denied, hkey_local_machine, hkey_current_user,
}
use pc_unlock_project.Registry.Values.{
  device_registry_root, build_device_key_path, reg_val_pair_status, reg_val_device_name,
  reg_val_account_sid, reg_val_public_key, reg_val_paired_time, reg_val_last_seen, text_value,
  to_narrow, wide_of_memory, over, file_time_of, time_value,
}

-- How far ApplyRegistryAcl comes before it sets the security of a key.
pub data AclCalls : Type 0 where
  no_library no_function converted : AclCalls
  not_converted : ℕ → AclCalls

abbrev pub status_of : Option Bytes → ℕ
status_of none = status_revoked
status_of (some bytes) = from_le bytes

abbrev pub text_of : Bytes → Option Bytes → Bytes
text_of old none = old
text_of old (some bytes) = to_narrow (wide_of_memory bytes)

abbrev pub key_of : Bytes → Option Bytes → Bytes
key_of old none = old
key_of old (some bytes) = bytes

abbrev pub time_of : FileTime → Option Bytes → FileTime
time_of old none = old
time_of old (some bytes) = file_time_of (from_le bytes)

-- `DeviceRecord record{}`
abbrev pub empty_record : DeviceRecord
empty_record = record {
  device_id = replicate 16 0;
  device_name = [];
  account_sid = [];
  public_key = [];
  pair_status = 0;
  paired_time = record { high = 0; low = 0 };
  last_seen = record { high = 0; low = 0 };
}

module _ (R : WinRegistry) where
  -- `s_registryRoot`, and the registry.
  pub record RegistryState : Type 0 where
    pub root : ℕ
    pub store : R.Store

  abbrev set_registry_root_for_testing : ℕ → RegistryState → RegistryState
  set_registry_root_for_testing root s = record s { root = root }

  abbrev get_registry_root : RegistryState → ℕ
  get_registry_root s = s.root

  abbrev pub secure_key : AclCalls → Wide → RegistryState → ℕ × RegistryState
  secure_key no_library path s = (error_success, s)
  secure_key no_function path s = (error_success, s)
  secure_key (not_converted code) path s = (code, s)
  secure_key converted path s =
      let (code, store1) = R.set_security s.root path s.store in (code, record s { store = store1 })

  unfoldable pub apply_registry_acl : AclCalls → Wide → RegistryState → ℕ × RegistryState
  apply_registry_acl calls path s =
      if not (s.root == hkey_local_machine) then (error_success, s) else secure_key calls path s

  -- `RegSetValueExW`, whose result is not looked at.
  abbrev pub put : Wide → Wide → Bytes → RegistryState → RegistryState
  put path name bytes s = record s { store = (R.set_value s.root path name bytes s.store).1 }

  abbrev pub put_key : Wide → Bytes → RegistryState → RegistryState
  put_key path [] s = s
  put_key path (b ∷ bs) s = put path reg_val_public_key (b ∷ bs) s

  unfoldable pub write_values : Wide → DeviceRecord → RegistryState → RegistryState
  write_values path r s = put path reg_val_last_seen (time_value r.last_seen) (
      put path reg_val_paired_time (time_value r.paired_time) (
        put_key path r.public_key (
          put path reg_val_account_sid (text_value r.account_sid) (
            put path reg_val_device_name (text_value r.device_name)
              (put path reg_val_pair_status (le_bytes 4 r.pair_status) s)))))

  -- The key of all devices, under the current user if the machine's is denied.
  unfoldable pub ensure_root : RegistryState → ℕ × RegistryState
  ensure_root s =
      let (code, store1) = R.create_key s.root device_registry_root s.store in
      if code == error_access_denied && s.root == hkey_local_machine
      then (let (code2, store2) = R.create_key hkey_current_user device_registry_root store1 in
          (code2, record { root = hkey_current_user; store = store2 }))
      else (code, record s { store = store1 })

  unfoldable pub write_device_key : AclCalls → DeviceRecord → RegistryState → ℕ × RegistryState
  write_device_key calls r s =
      let path = build_device_key_path (device_id_to_string r.device_id) in
      let (code, store1) = R.create_key s.root path s.store in
      if not (code == error_success) then (code, record s { store = store1 }) else (
        error_success,
        write_values path r (apply_registry_acl calls path (record s { store = store1 })).1,
      )

  unfoldable pub write_device_record : AclCalls → DeviceRecord → RegistryState → ℕ × RegistryState
  write_device_record calls r s =
      let (code, s1) = ensure_root s in
      if not (code == error_success) then (code, s1) else write_device_key calls r s1

  -- What a query of the value `name` leaves in a buffer of zeros, if it succeeds.
  unfoldable pub queried : Wide → ℕ → Wide → RegistryState → Option Bytes
  queried path size name s =
      let (code, written, reported) = R.query_value s.root path name size s.store in
      if code == error_success then some (over written (replicate size 0)) else none

  unfoldable pub queried_key : Wide → RegistryState → Option Bytes
  queried_key path s =
      let (code, written, reported) = R.query_value s.root path reg_val_public_key 256 s.store in
      if code == error_success && ltb 0 (length written) then some written else none

  -- The members of `out` stay where a value is missing or does not fit.
  unfoldable pub read_values : Bytes → DeviceRecord → RegistryState → DeviceRecord
  read_values id out s =
      let path = build_device_key_path id in
      record {
        device_id = (device_id_from_string id out.device_id).1;
        device_name = text_of out.device_name (queried path 512 reg_val_device_name s);
        account_sid = text_of out.account_sid (queried path 512 reg_val_account_sid s);
        public_key = key_of out.public_key (queried_key path s);
        pair_status = status_of (queried path 4 reg_val_pair_status s);
        paired_time = time_of out.paired_time (queried path 8 reg_val_paired_time s);
        last_seen = time_of out.last_seen (queried path 8 reg_val_last_seen s);
      }

  unfoldable pub read_device_record : Bytes → DeviceRecord → RegistryState → ℕ × DeviceRecord
  read_device_record id out s =
      let code = R.open_key s.root (build_device_key_path id) s.store in
      if not (code == error_success) then (code, out) else (error_success, read_values id out s)

  -- SetDeviceStatus, and UpdateLastSeen at the time `now`.
  unfoldable pub set_device_status : Bytes → ℕ → RegistryState → ℕ × RegistryState
  set_device_status id status s =
      let path = build_device_key_path id in
      let opened = R.open_key s.root path s.store in
      if not (opened == error_success)
      then (opened, s)
      else let (code, store1) =
          R.set_value s.root path reg_val_pair_status (le_bytes 4 status) s.store in
        (code, record s { store = store1 })

  unfoldable pub update_last_seen : FileTime → Bytes → RegistryState → ℕ × RegistryState
  update_last_seen now id s =
      let path = build_device_key_path id in
      let opened = R.open_key s.root path s.store in
      if not (opened == error_success)
      then (opened, s)
      else let (code, store1) =
          R.set_value s.root path reg_val_last_seen (time_value now) s.store in
        (code, record s { store = store1 })

  unfoldable pub delete_device_record : Bytes → RegistryState → ℕ × RegistryState
  delete_device_record id s =
      let (code, store1) = R.delete_key s.root (build_device_key_path id) s.store in
      (code, record s { store = store1 })
