-- ===== src/Configuration.antt =====
-- windows/configuration/ConfigurationManager.h: the settings of the service, and their bounds.
pub mod Manager
use pc_unlock_project.Common.{
  is_empty, ℕ, Bool, true, false, not, ◌||◌, ltb, ◌==◌, if◌then◌else◌, [], ◌∷◌, Bytes, codes,
}

pub record AppConfig : Type 0 where
  pub wifi_port : ℕ  -- uint16_t
  pub mdns_port : ℕ  -- uint16_t
  pub require_fingerprint_for_lock : Bool
  pub enable_ble_discovery : Bool
  pub enable_internet_relay : Bool
  pub rate_limit_max_attempts : ℕ  -- uint32_t
  pub rate_limit_window_seconds : ℕ  -- uint32_t
  pub rate_limit_block_seconds : ℕ  -- uint32_t
  pub challenge_ttl_seconds : ℕ  -- uint32_t
  pub service_pipe_name : Bytes

-- `AppConfig{}`
abbrev pub default_config : AppConfig
default_config = record {
  wifi_port = 8443;
  mdns_port = 8444;
  require_fingerprint_for_lock = false;
  enable_ble_discovery = true;
  enable_internet_relay = false;
  rate_limit_max_attempts = 5;
  rate_limit_window_seconds = 60;
  rate_limit_block_seconds = 900;
  challenge_ttl_seconds = 30;
  service_pipe_name = codes "\\\\.\\pipe\\MobileUnlockSecureIPC";
}

unfoldable pub validate_configuration : AppConfig → Bool
validate_configuration c =
    if c.wifi_port == 0 || c.mdns_port == 0
    then false
    else if c.rate_limit_max_attempts == 0 || c.rate_limit_window_seconds == 0
    then false
    else if c.challenge_ttl_seconds == 0 || ltb 300 c.challenge_ttl_seconds
    then false
    else not (is_empty c.service_pipe_name)
