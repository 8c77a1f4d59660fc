-- ===== src/Pairing/Manager/Request.antt =====
-- windows/pairing/PairingManager.cpp: `HandlePairRequest`.
use pc_unlock_project.Common.{
  ℕ, Bool, false, not, leb, if◌then◌else◌, [], ◌∷◌, Bytes, codes, replicate,
}
use pc_unlock_project.Common.Assoc.{insert, nat_eq, bytes_Eq}
use pc_unlock_project.Protocol.Types.{pair_response}
use pc_unlock_project.Pairing.Identity.{device_id_from_string}
use pc_unlock_project.Pairing.SasPin.{FileTime, Draw, generate_sas_pin}
use pc_unlock_project.Pairing.Record.{Devices, max_devices_per_account, is_device_active}
use pc_unlock_project.Pairing.Messages.{PairRequestPayload, parse_pair_request, build_pair_response}
use pc_unlock_project.Pairing.Manager.State.{
  waiting_for_sas, PairingSession, PairingManager, shows_pin, PairReply, malformed_header,
  unauthorized, error_rate_limited, error_internal, is_attempt_limited, clear_session, pair_error,
}

abbrev pub new_session : ℕ → Bytes → PairRequestPayload → Bytes → FileTime → PairingSession
new_session client ip req pin generated_at = record {
  device_id = (device_id_from_string req.device_id (replicate 16 0)).1;
  device_name = req.device_name;
  client_ip = ip;
  sas_pin = pin;
  sas_generated_at = generated_at;
  sas_attempts = 0;
  state = waiting_for_sas;
  session_client_id = client;
  client_public_key = req.public_key;
}

unfoldable pub open_session :
    {Store : Type 0}
    → FileTime
    → Bytes
    → Bytes
    → ℕ
    → Bytes
    → PairRequestPayload
    → PairingManager
    → Store
    → PairReply Store
open_session generated_at hostname [] client ip req p store =
    pair_error error_internal (codes "SAS generation failed") [] p store
open_session generated_at hostname (c ∷ cs) client ip req p store = record {
  manager = record p {
    sessions = insert client (new_session client ip req (c ∷ cs) generated_at) p.sessions;
  };
  store = store;
  type = pair_response;
  payload = build_pair_response hostname;
  notices = shows_pin (c ∷ cs) req.device_name ∷ [];
}

module _ (E : Devices) where
  -- `account_sid` is empty if it cannot be resolved.
  abbrev pub is_full : Bytes → E.Store → Bool
  is_full [] store = false
  is_full (c ∷ cs) store =
      leb max_devices_per_account (E.count_active_devices_for_account (c ∷ cs) store)

  unfoldable pub handle_pair_request :
      FileTime
      → FileTime
      → Bytes
      → Bytes
      → (ℕ → Draw)
      → ℕ
      → Bytes
      → Bytes
      → PairingManager
      → E.Store
      → PairReply E.Store
  handle_pair_request now generated_at account_sid hostname draws client ip payload p store =
      let cleared = record p { sessions = clear_session client p.sessions } in
      let req = parse_pair_request payload in
      if not req.valid
      then pair_error malformed_header (codes "Invalid PAIR_REQUEST payload") [] cleared store
      else if is_attempt_limited req.device_id now p.rate_limit_map
      then pair_error error_rate_limited (codes "Pairing rate limit exceeded") [] cleared store
      else if is_device_active E req.device_id store
      then pair_error unauthorized (codes "Device already paired. Unpair first.") [] cleared store
      else if is_full account_sid store
      then pair_error unauthorized (codes "Maximum paired devices reached") [] cleared store
      else open_session generated_at hostname (generate_sas_pin draws) client ip req cleared store
