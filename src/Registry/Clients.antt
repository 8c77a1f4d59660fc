-- ===== src/Registry/Clients.antt =====
-- windows/pairing/DeviceRegistry.cpp: the registry of devices that the other components use, with the
-- registry of Windows behind it, and what they do once a device is removed.
use pc_unlock_project.Common.{
  ℕ, ◌≡◌, refl, ◌∙◌, false, ◌||◌, ◌==◌, if◌then◌else◌, [], Option, none, some, Bytes, length, arith,
  codes,
}
use pc_unlock_project.Pairing.Messages.{json_get_string}
use pc_unlock_project.Pairing.Record.{DeviceRecord, Devices}
use pc_unlock_project.Pairing.SasPin.{FileTime}
use pc_unlock_project.Pairing.Manager.State.{PairingManager}
use pc_unlock_project.Pairing.Manager.Confirm.{handle_unpair_request}
use pc_unlock_project.Registry.Win32.{
  WinRegistry, Documented, same_refl, error_success, error_file_not_found,
}
use pc_unlock_project.Registry.Values.{build_device_key_path}
use pc_unlock_project.Registry.Records.{
  RegistryState, AclCalls, read_device_record, update_last_seen, write_device_record,
  delete_device_record, empty_record,
}
use pc_unlock_project.Registry.Enumeration.{count_active_devices_for_account}

abbrev read_result : ℕ × DeviceRecord → Option DeviceRecord
read_result (code, r) = if code == error_success then some r else none

abbrev count_or_zero : Option ℕ → ℕ
count_or_zero none = 0
count_or_zero (some n) = n

-- The calls of the other components: a new record is read into, the time is `now`, and the loop over the
-- subkeys has `fuel`.
abbrev pub registry_devices : WinRegistry → AclCalls → FileTime → ℕ → Devices
registry_devices R calls now fuel = record {
  Store = RegistryState R;
  read_device_record = λ id s. read_result (read_device_record R id empty_record s);
  update_last_seen = λ id s. (update_last_seen R now id s).1;
  write_device_record =
      λ r s. let (code, s1) = write_device_record R calls r s in (code == error_success, s1);
  delete_device_record = λ id s.
      let (code, s1) = delete_device_record R id s in
      (code == error_success || code == error_file_not_found, s1);
  count_active_devices_for_account =
      λ sid s. count_or_zero (count_active_devices_for_account R fuel sid s);
}

module _ (R : WinRegistry) (L : Documented R) (calls : AclCalls) (clock : FileTime) (fuel : ℕ) where
  abbrev pub devices : Devices
  devices = registry_devices R calls clock fuel

  deleted_none :
      (id : Bytes) (s : RegistryState R)
      → L.subkeys s.root (build_device_key_path id) s.store ≡ []
      → devices.read_device_record id (delete_device_record R id s).1 ≡ none
  unfolding delete_device_record read_device_record
  deleted_none id s leaf =
      let path = build_device_key_path id in
      let s1 = (delete_device_record R id s).1 in
      let gone : L.has_key s1.root path s1.store ≡ false =
        L.delete_lem s.root path path s.store ∙ rw (same_refl path, leaf) (ground arith) in
      rw (L.open_lem s1.root path s1.store, gone) refl

  pub unpaired_none :
      (payload id : Bytes) (p : PairingManager) (s : RegistryState R)
      → json_get_string payload (codes "deviceId") ≡ id
      → length id ≡ 36
      → L.subkeys s.root (build_device_key_path id) s.store ≡ []
      → devices.read_device_record id (handle_unpair_request devices payload p s).store ≡ none
  unfolding handle_unpair_request
  unpaired_none payload id p s named size leaf = rw (named, size) (deleted_none id s leaf)
