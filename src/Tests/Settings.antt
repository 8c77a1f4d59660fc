-- ===== src/Tests/Settings.antt =====
-- The theorems on the settings, at a registry in memory.
use pc_unlock_project.Common.{◌≡◌, refl, true, [], ◌∷◌, arith, replicate, bytes_eq}
use pc_unlock_project.Registry.Win32.{hkey_local_machine}
use pc_unlock_project.Configuration.{AppConfig, default_config, validate_configuration}
use pc_unlock_project.Configuration.Manager.{
  loaded, corrupted, reg_key_settings, wifi_port_name, fingerprint_name, load_configuration,
  save_configuration,
}
use pc_unlock_project.Configuration.Manager.Laws.{
  merged, load_configuration-save, load_configuration-corrupted,
}
use pc_unlock_project.Tests.KeyStore.{key_store, key_store_laws, KeyStore, Key}

abbrev no_keys : KeyStore
no_keys = record { keys = []; values = [] }

-- Another port, and other limits.
abbrev strict : AppConfig
strict = record default_config {
  wifi_port = 9000;
  require_fingerprint_for_lock = true;
  rate_limit_max_attempts = 3;
}

strict_valid : validate_configuration strict ≡ true
unfolding validate_configuration
strict_valid = refl

load_configuration-save_example :
    ((save_configuration key_store strict default_config no_keys).0 ≡ true)
    × ((save_configuration key_store strict default_config no_keys).1.0 ≡ strict)
    × (load_configuration key_store strict
          (save_configuration key_store strict default_config no_keys).1.1
        ≡ loaded true strict)
    × (load_configuration key_store default_config
          (save_configuration key_store strict default_config no_keys).1.1
        ≡ loaded true (merged strict default_config))
load_configuration-save_example =
    load_configuration-save key_store key_store_laws strict default_config no_keys strict_valid
      (omega arith)

abbrev settings_key : Key
settings_key = record { root = hkey_local_machine; path = reg_key_settings }

-- Two values of eight bytes.
abbrev long_values : KeyStore
long_values = record {
  keys = settings_key ∷ [];
  values =
      record { key = settings_key; name = wifi_port_name; bytes = replicate 8 1 }
      ∷ record { key = settings_key; name = fingerprint_name; bytes = replicate 8 1 }
      ∷ [];
}

load_configuration-corrupted_example :
    load_configuration key_store default_config long_values ≡ corrupted
unfolding key_store_laws bytes_eq
load_configuration-corrupted_example =
    load_configuration-corrupted key_store key_store_laws default_config (replicate 8 1)
      (replicate 8 1) long_values refl refl (omega arith) refl (omega arith) (omega arith)
