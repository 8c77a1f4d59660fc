-- ===== src/Pairing/Record.antt =====
-- windows/pairing/DeviceRegistry.h: the record of a paired device, and what the other components
-- use of the registry.
use pc_unlock_project.Common.{ℕ, Bytes, Bool, false, ◌==◌, Option, none, some}
use pc_unlock_project.Pairing.Identity.{DeviceId}
use pc_unlock_project.Pairing.SasPin.{FileTime}

abbrev pub status_active : ℕ
status_active = 1

abbrev pub status_revoked : ℕ
status_revoked = 0

abbrev pub max_devices_per_account : ℕ
max_devices_per_account = 5

pub record DeviceRecord : Type 0 where
  pub device_id : DeviceId
  pub device_name : Bytes
  pub account_sid : Bytes
  pub public_key : Bytes
  pub pair_status : ℕ  -- DWORD
  pub paired_time : FileTime
  pub last_seen : FileTime

-- The registry as a client sees it: reading a record (`none` for every error code), the update of
-- its time of last contact, writing and deleting a record (with success), and the count of the
-- active devices of an account.
pub record Devices : Type 1 where
  pub Store : Type 0
  pub read_device_record : Bytes → Store → Option DeviceRecord
  pub update_last_seen : Bytes → Store → Store
  pub write_device_record : DeviceRecord → Store → Bool × Store
  pub delete_device_record : Bytes → Store → Bool × Store
  pub count_active_devices_for_account : Bytes → Store → ℕ

-- DeviceRegistry.cpp: `IsDeviceActive`.
unfoldable pub is_device_active : (E : Devices) → Bytes → E.Store → Bool
is_device_active E id store = elim (E.read_device_record id store) [
  | none ↦ false
  | some r ↦ r.pair_status == status_active
]
