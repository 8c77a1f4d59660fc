-- ===== src/Configuration/Manager.antt =====
-- windows/configuration/ConfigurationManager.cpp: the settings in the registry. The three calls of
-- RegQueryValueExW share one variable of four bytes for the data, and one for the size, which each call
-- sets to the size of its value and the next call takes as the size of the variable.
pub mod Laws
use pc_unlock_project.Common.{
  ℕ, ◌%◌, ◌^◌, Bool, true, false, not, ltb, ◌==◌, if◌then◌else◌, Bytes, codes, length, le_bytes,
  from_le,
}
use pc_unlock_project.Registry.Win32.{WinRegistry, Wide, hkey_local_machine, error_success}
use pc_unlock_project.Registry.Values.{over}
use pc_unlock_project.Configuration.{AppConfig, default_config, validate_configuration}

abbrev pub reg_key_settings : Wide
reg_key_settings = codes "SOFTWARE\\MobileFingerprintUnlock\\Settings"

abbrev pub wifi_port_name : Wide
wifi_port_name = codes "WifiPort"

abbrev pub fingerprint_name : Wide
fingerprint_name = codes "RequireFingerprintForLock"

abbrev pub ble_name : Wide
ble_name = codes "EnableBleDiscovery"

-- What one query makes of the data and the size. `overrun` stands for a write behind the variable.
pub data Reading : Type 0 where
  overrun : Reading
  got : ℕ → ℕ → Reading
  missed : ℕ → Reading

pub data Loading : Type 0 where
  corrupted : Loading
  loaded : Bool → AppConfig → Loading

abbrev finished : AppConfig → Loading
finished config = loaded (validate_configuration config) config

abbrev take_ble : Reading → AppConfig → Loading
take_ble overrun config = corrupted
take_ble (got dw_data cb_data) config =
    finished (record config { enable_ble_discovery = not (dw_data == 0) })
take_ble (missed cb_data) config = finished config

abbrev dword : Bool → ℕ
dword b = if b then 1 else 0

module _ (R : WinRegistry) where
  unfoldable pub read_setting : Wide → ℕ → ℕ → R.Store → Reading
  read_setting name dw_data cb_data s =
      let (code, written, reported) =
        R.query_value hkey_local_machine reg_key_settings name cb_data s in
      if not (code == error_success)
      then missed reported
      else if ltb 4 (length written)
      then overrun
      else got (from_le (over written (le_bytes 4 dw_data))) reported

  abbrev take_fingerprint : ℕ → Reading → R.Store → AppConfig → Loading
  take_fingerprint old overrun s config = corrupted
  take_fingerprint old (got dw_data cb_data) s config =
      take_ble (read_setting ble_name dw_data cb_data s)
        (record config { require_fingerprint_for_lock = not (dw_data == 0) })
  take_fingerprint old (missed cb_data) s config =
      take_ble (read_setting ble_name old cb_data s) config

  abbrev take_port : Reading → R.Store → AppConfig → Loading
  take_port overrun s config = corrupted
  take_port (got dw_data cb_data) s config =
      take_fingerprint dw_data (read_setting fingerprint_name dw_data cb_data s) s
        (record config { wifi_port = dw_data % 2 ^ 16 })
  take_port (missed cb_data) s config =
      take_fingerprint 0 (read_setting fingerprint_name 0 cb_data s) s config

  -- `config` is m_config before.
  unfoldable pub load_configuration : AppConfig → R.Store → Loading
  load_configuration config s =
      if not (R.open_key hkey_local_machine reg_key_settings s == error_success)
      then loaded true default_config
      else take_port (read_setting wifi_port_name 0 4 s) s config

  abbrev set_dword : Wide → ℕ → R.Store → R.Store
  set_dword name value s =
      (R.set_value hkey_local_machine reg_key_settings name (le_bytes 4 value) s).1

  abbrev write_settings : AppConfig → R.Store → R.Store
  write_settings c s = set_dword ble_name (dword c.enable_ble_discovery) (
      set_dword fingerprint_name (dword c.require_fingerprint_for_lock)
        (set_dword wifi_port_name c.wifi_port s))

  -- The answer, m_config and the registry; `old` is m_config before.
  unfoldable pub save_configuration : AppConfig → AppConfig → R.Store → Bool × (AppConfig × R.Store)
  save_configuration c old s =
      let (status, created) = R.create_key hkey_local_machine reg_key_settings s in
      if not (validate_configuration c)
      then (false, (old, s))
      else if not (status == error_success)
      then (false, (old, created))
      else (true, (c, write_settings c created))
