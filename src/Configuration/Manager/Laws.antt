-- ===== src/Configuration/Manager/Laws.antt =====
-- windows/configuration/ConfigurationManager.cpp: what is saved is loaded, for three settings, and a
-- value that is too long.
use pc_unlock_project.Common.{
  ℕ, ◌%◌, ◌^◌, ◌≤◌, ◌<◌, ◌≡◌, refl, ap, ◌∙◌, Bool, true, false, not, ltb, ◌==◌, Option, some, Bytes,
  length, le_bytes, from_le, from_le-le_bytes, bytes_eq, arith,
}
use mathlib.Core.List.{append-nil}
use pc_unlock_project.Registry.Win32.{WinRegistry, Wide, Documented, hkey_local_machine}
use pc_unlock_project.Registry.Values.{over}
use pc_unlock_project.Configuration.{AppConfig, default_config, validate_configuration}
use pc_unlock_project.Configuration.Manager.{
  overrun, got, missed, corrupted, loaded, reg_key_settings, wifi_port_name, fingerprint_name,
  ble_name, dword, read_setting, load_configuration, write_settings, save_configuration,
}

-- What a manager whose m_config was `old` has after a load of what was saved from `c`.
abbrev pub merged : AppConfig → AppConfig → AppConfig
merged c old = record old {
  wifi_port = c.wifi_port;
  require_fingerprint_for_lock = c.require_fingerprint_for_lock;
  enable_ble_discovery = c.enable_ble_discovery;
}

flag : (b : Bool) → not (dword b == 0) ≡ b
flag true = refl
flag false = refl

dword-lt : (b : Bool) → dword b < 2 ^ 32
dword-lt true = omega arith
dword-lt false = omega arith

merged_valid :
    (c : AppConfig)
    → validate_configuration c ≡ true
    → validate_configuration (merged c default_config) ≡ true
unfolding validate_configuration
merged_valid c h = ground (arith, h)

module _ (R : WinRegistry) (L : Documented R) where
  abbrev setting : Wide → R.Store → Option Bytes
  setting name s = L.value hkey_local_machine reg_key_settings name s

  read_whole :
      (name : Wide) (old v : ℕ) (s : R.Store)
      → setting name s ≡ some (le_bytes 4 v)
      → v < 2 ^ 32
      → read_setting R name old 4 s ≡ got v 4
  unfolding read_setting le_bytes
  read_whole name old v s e small =
      let value : from_le (over (le_bytes 4 v) (le_bytes 4 old)) ≡ v =
        ap from_le (append-nil (le_bytes 4 v)) ∙ from_le-le_bytes 4 v small in
      rw (L.query_lem hkey_local_machine reg_key_settings name 4 s, e) (ap (λ d. got d 4) value)

  module _ (c : AppConfig) (s : R.Store) where
    abbrev saved : R.Store
    saved = write_settings R c s

    held_port : setting wifi_port_name saved ≡ some (le_bytes 4 c.wifi_port)
    unfolding bytes_eq
    held_port = simp L.set_lem

    held_fingerprint :
        setting fingerprint_name saved ≡ some (le_bytes 4 (dword c.require_fingerprint_for_lock))
    unfolding bytes_eq
    held_fingerprint = simp L.set_lem

    held_ble : setting ble_name saved ≡ some (le_bytes 4 (dword c.enable_ble_discovery))
    unfolding bytes_eq
    held_ble = simp L.set_lem

    kept_key :
        L.has_key hkey_local_machine reg_key_settings saved
        ≡ L.has_key hkey_local_machine reg_key_settings s
    kept_key = simp L.set_key

  load_saved :
      (c old : AppConfig) (s : R.Store)
      → c.wifi_port < 2 ^ 16
      → L.has_key hkey_local_machine reg_key_settings s ≡ true
      → load_configuration R old (write_settings R c s)
        ≡ loaded (validate_configuration (merged c old)) (merged c old)
  unfolding load_configuration
  load_saved c old s small key =
      let t = write_settings R c s in
      let opened : R.open_key hkey_local_machine reg_key_settings t ≡ 0 =
        L.open_lem hkey_local_machine reg_key_settings t ∙ rw (kept_key c s, key) refl in
      let port = read_whole wifi_port_name 0 c.wifi_port t (held_port c s) (omega (arith, small)) in
      let fingerprint =
        read_whole fingerprint_name c.wifi_port (dword c.require_fingerprint_for_lock) t
          (held_fingerprint c s) (dword-lt c.require_fingerprint_for_lock) in
      let ble =
        read_whole ble_name (dword c.require_fingerprint_for_lock) (dword c.enable_ble_discovery) t
          (held_ble c s) (dword-lt c.enable_ble_discovery) in
      let narrow : c.wifi_port % 2 ^ 16 ≡ c.wifi_port = omega (arith, small) in
      rw
        (
          opened,
          port,
          fingerprint,
          ble,
          narrow,
          flag c.require_fingerprint_for_lock,
          flag c.enable_ble_discovery,
        )
        refl

  -- A valid configuration is saved. A load by the same manager gives it back; a load by a new manager
  -- gives its port and its two switches, and the defaults of the seven other settings.
  pub load_configuration-save :
      (c old : AppConfig) (s : R.Store)
      → validate_configuration c ≡ true
      → c.wifi_port < 2 ^ 16
      → ((save_configuration R c old s).0 ≡ true)
        × ((save_configuration R c old s).1.0 ≡ c)
        × (load_configuration R c (save_configuration R c old s).1.1 ≡ loaded true c)
        × (load_configuration R default_config (save_configuration R c old s).1.1
            ≡ loaded true (merged c default_config))
  unfolding save_configuration le_bytes
  load_configuration-save c old s ok small =
      let s1 = (R.create_key hkey_local_machine reg_key_settings s).1 in
      let (done, key) = L.create_lem hkey_local_machine reg_key_settings s in
      let all : save_configuration R c old s ≡ (true, (c, write_settings R c s1)) =
        rw (ok, done, save_configuration) refl in
      (
        ap (λ p. p.0) all,
        ap (λ p. p.1.0) all,
        ap (λ p. load_configuration R c p.1.1) all
            ∙ load_saved c c s1 small key
            ∙ ap (λ b. loaded b c) ok,
        ap (λ p. load_configuration R default_config p.1.1) all
            ∙ load_saved c default_config s1 small key
            ∙ ap (λ b. loaded b (merged c default_config)) (merged_valid c ok),
      )

  missed_lem :
      (name : Wide) (old size : ℕ) (b : Bytes) (s : R.Store)
      → setting name s ≡ some b
      → size < length b
      → read_setting R name old size s ≡ missed (length b)
  unfolding read_setting
  missed_lem name old size b s e long =
      let more : ltb size (length b) ≡ true = ground (arith, long) in
      rw (L.query_lem hkey_local_machine reg_key_settings name size s, e, more) refl

  overrun_lem :
      (name : Wide) (old size : ℕ) (b : Bytes) (s : R.Store)
      → setting name s ≡ some b
      → 4 < length b
      → length b ≤ size
      → read_setting R name old size s ≡ overrun
  unfolding read_setting
  overrun_lem name old size b s e long fits =
      let room : ltb size (length b) ≡ false = ground (arith, fits) in
      let more : ltb 4 (length b) ≡ true = ground (arith, long) in
      rw (L.query_lem hkey_local_machine reg_key_settings name size s, e, room, more) refl

  -- A port of more than four bytes in the registry lets a load write a second value, of more than four
  -- bytes too but no longer than the first, over the end of the variable.
  pub load_configuration-corrupted :
      (config : AppConfig) (port fingerprint : Bytes) (s : R.Store)
      → L.has_key hkey_local_machine reg_key_settings s ≡ true
      → setting wifi_port_name s ≡ some port
      → 4 < length port
      → setting fingerprint_name s ≡ some fingerprint
      → 4 < length fingerprint
      → length fingerprint ≤ length port
      → load_configuration R config s ≡ corrupted
  unfolding load_configuration
  load_configuration-corrupted config port fingerprint s key e long f long2 fits =
      let opened : R.open_key hkey_local_machine reg_key_settings s ≡ 0 =
        L.open_lem hkey_local_machine reg_key_settings s ∙ rw key refl in
      rw
        (
          opened,
          missed_lem wifi_port_name 0 4 port s e long,
          overrun_lem fingerprint_name 0 (length port) fingerprint s f long2 fits,
        )
        refl
