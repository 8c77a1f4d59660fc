-- ===== src/Pairing/Manager/Confirm.antt =====
-- windows/pairing/PairingManager.cpp: `HandlePairConfirm` and `HandleUnpairRequest`.
use pc_unlock_project.Common.{
  ℕ, ◌+◌, Bool, true, false, not, ◌||◌, leb, ◌==◌, if◌then◌else◌, [], ◌∷◌, none, some, Bytes, codes,
  length,
}
use pc_unlock_project.Common.Assoc.{find, insert, nat_eq, bytes_Eq}
use pc_unlock_project.Protocol.Types.{pair_complete, unpair_response}
use pc_unlock_project.Pairing.Identity.{device_id_to_string}
use pc_unlock_project.Pairing.SasPin.{FileTime, sas_max_attempts, sas_pin_expired, validate_sas_pin}
use pc_unlock_project.Pairing.Record.{DeviceRecord, Devices, status_active}
use pc_unlock_project.Pairing.Messages.{
  parse_pair_confirm, json_get_string, build_pair_complete, build_unpair_response,
}
use pc_unlock_project.Pairing.Manager.State.{
  PairingState, waiting_for_sas, failed, PairingSession, PairingManager, succeeds, fails, PairReply,
  malformed_header, unauthorized, error_internal, record_failed_attempt, clear_failed_attempts,
  clear_session, pair_error,
}

-- One more failed attempt, of the session and of its device.
abbrev pub one_more : PairingSession → PairingSession
one_more s = record s { sas_attempts = s.sas_attempts + 1 }

abbrev pub with_attempt : ℕ → PairingSession → FileTime → PairingManager → PairingManager
with_attempt client s now p = record p {
  sessions = insert client s p.sessions;
  rate_limit_map = record_failed_attempt (device_id_to_string s.device_id) now p.rate_limit_map;
}

abbrev pub record_of : PairingSession → Bytes → FileTime → DeviceRecord
record_of s account_sid paired_at = record {
  device_id = s.device_id;
  device_name = s.device_name;
  account_sid = account_sid;
  public_key = s.client_public_key;
  pair_status = status_active;
  paired_time = paired_at;
  last_seen = paired_at;
}

abbrev pub is_waiting : PairingState → Bool
is_waiting waiting_for_sas = true
is_waiting _ = false

module _ (E : Devices) where
  unfoldable pub reject_malformed :
      FileTime → ℕ → PairingSession → PairingManager → E.Store → PairReply E.Store
  reject_malformed now client s p store =
      let counted = one_more s in
      let s1 =
        if leb sas_max_attempts counted.sas_attempts
        then record counted { state = failed }
        else counted in
      pair_error malformed_header (codes "Invalid PAIR_CONFIRM payload")
        (fails (codes "Invalid PAIR_CONFIRM payload") ∷ []) (with_attempt client s1 now p) store

  -- `later` is the time at which the expiry is looked at once more.
  unfoldable pub reject_pin :
      FileTime → FileTime → ℕ → PairingSession → PairingManager → E.Store → PairReply E.Store
  reject_pin now later client s p store =
      let counted = one_more s in
      let p1 = with_attempt client counted now p in
      let p2 = record p1 { sessions = clear_session client p1.sessions } in
      let is_late = sas_pin_expired later s.sas_generated_at in
      let reason =
        if is_late then codes "SAS PIN expired" else codes "Maximum SAS attempts exceeded" in
      if is_late || leb sas_max_attempts counted.sas_attempts
      then pair_error unauthorized reason (fails reason ∷ []) p2 store
      else pair_error unauthorized (codes "Incorrect SAS PIN") [] p1 store

  unfoldable pub complete_pairing :
      FileTime → Bytes → ℕ → PairingSession → PairingManager → E.Store → PairReply E.Store
  complete_pairing paired_at account_sid client s p store =
      let id = device_id_to_string s.device_id in
      let (ok, store1) = E.write_device_record (record_of s account_sid paired_at) store in
      let p1 : PairingManager = record {
        sessions = clear_session client p.sessions;
        rate_limit_map = clear_failed_attempts id p.rate_limit_map;
      } in
      if ok
      then record {
        manager = p1;
        store = store1;
        type = pair_complete;
        payload = build_pair_complete id;
        notices = succeeds s.device_id s.device_name s.client_ip ∷ [];
      }
      else pair_error error_internal (codes "Registry write failed")
          (fails (codes "Registry write failed") ∷ []) p1 store1

  -- `now` is the time of the test of the PIN, `later` that of what follows it.
  unfoldable pub handle_pair_confirm :
      FileTime → FileTime → Bytes → ℕ → Bytes → PairingManager → E.Store → PairReply E.Store
  handle_pair_confirm now later account_sid client payload p store = elim (find client p.sessions) [
    | none ↦ pair_error unauthorized (codes "No active pairing session") [] p store
    | some s ↦
        if not (is_waiting s.state)
        then pair_error unauthorized (codes "No active pairing session") [] p store
        else let conf = parse_pair_confirm payload in
          if not conf.valid
          then reject_malformed now client s p store
          else if not
              (validate_sas_pin now conf.sas_pin s.sas_pin s.sas_generated_at s.sas_attempts)
          then reject_pin later later client s p store
          else complete_pairing later account_sid client s p store
  ]

  -- The sender is not looked at.
  unfoldable pub handle_unpair_request : Bytes → PairingManager → E.Store → PairReply E.Store
  handle_unpair_request payload p store =
      let id = json_get_string payload (codes "deviceId") in
      let (success, store1) = E.delete_device_record id store in
      if not (length id == 36)
      then pair_error malformed_header (codes "Invalid deviceId in UNPAIR_REQUEST") [] p store
      else record {
        manager = p;
        store = store1;
        type = unpair_response;
        payload = build_unpair_response success id;
        notices = [];
      }
