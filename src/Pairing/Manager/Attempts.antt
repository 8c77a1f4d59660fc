-- ===== src/Pairing/Manager/Attempts.antt =====
-- The limit on failed attempts: two ways in which it does not limit.
use pc_unlock_project.Common.{
  ℕ, ◌+◌, ◌-◌, ◌%◌, ◌^◌, ◌<◌, ◌≡◌, refl, Bool, true, false, not, ◌&&◌, ◌||◌, leb, ◌==◌, List, [],
  ◌∷◌, ◌++◌, some, Bytes, All, codes, bytes_eq_iff, length, arith, if_cases, option_cases,
  Option-cases, inl, inr,
}
use pc_unlock_project.Common.Assoc.{
  find, bytes_Eq, nat_eq, find-insert, AllEntries-insert, AllEntries-erase, AllEntries-find,
}
use pc_unlock_project.Text.Hex.{bytes_to_hex, byte_hex}
use pc_unlock_project.Pairing.Identity.{DeviceId, device_id_to_string}
use pc_unlock_project.Pairing.SasPin.{
  FileTime, to_u64, Draw, sas_pin_expired, sas_max_attempts, validate_sas_pin, generate_sas_pin,
}
use pc_unlock_project.Pairing.Record.{Devices, is_device_active}
use pc_unlock_project.Pairing.Messages.{
  PairRequestPayload, parse_pair_confirm, parse_pair_request, json_get_string,
}
use pc_unlock_project.Pairing.Manager.State.{
  AttemptMap, PairingManager, PairReply, is_attempt_limited, record_failed_attempt,
  clear_failed_attempts, cancel_pairing_session, expire_stale_sessions,
}
use pc_unlock_project.Pairing.Manager.Request.{handle_pair_request, open_session, is_full}
use pc_unlock_project.Pairing.Manager.Confirm.{
  handle_pair_confirm, handle_unpair_request, reject_malformed, reject_pin, complete_pairing,
  is_waiting, record_of,
}
use pc_unlock_project.Pairing.Manager.Calls.{
  Call, requests, confirms, unpairs, cancels, expires, run_call, run_calls,
}

-- A text that has an upper-case hexadecimal digit.
abbrev pub has_upper : Bytes → Bool
has_upper [] = false
has_upper (c ∷ cs) = (leb b'A' c && leb c b'F') || has_upper cs

has_upper-append : (s t : Bytes) → has_upper (s ++ t) ≡ (has_upper s || has_upper t)
has_upper-append [] t = refl
has_upper-append (c ∷ s) t = ground (arith, has_upper-append s t)

has_upper-bytes_to_hex : (bs : Bytes) → has_upper (bytes_to_hex bs) ≡ false
unfolding bytes_to_hex byte_hex
has_upper-bytes_to_hex [] = refl
has_upper-bytes_to_hex (b ∷ bs) = ground (arith, has_upper-bytes_to_hex bs)

-- The program prints identities in lower case.
has_upper-device_id_to_string : (id : DeviceId) → has_upper (device_id_to_string id) ≡ false
unfolding device_id_to_string
has_upper-device_id_to_string id = simp (has_upper-append, has_upper-bytes_to_hex) refl

abbrev IsLower : Bytes × (ℕ × FileTime) → Type 0
IsLower e = has_upper e.0 ≡ false

abbrev AllLower : AttemptMap → Type 0
AllLower m = All IsLower m

record_failed_attempt-AllLower :
    (id : DeviceId) (now : FileTime) (m : AttemptMap)
    → AllLower m
    → AllLower (record_failed_attempt (device_id_to_string id) now m)
unfolding record_failed_attempt
record_failed_attempt-AllLower id now m a =
    let text = device_id_to_string id in
    option_cases AllLower (find text m) _ _
      (λ e. AllEntries-insert IsLower text (1, now) m (has_upper-device_id_to_string id) a)
      (λ (count, start) e.
        AllEntries-insert IsLower text (count + 1, start) m (has_upper-device_id_to_string id) a)

-- The constructor.
abbrev pub no_manager : PairingManager
no_manager = record { sessions = []; rate_limit_map = [] }

module _ (E : Devices) where
  abbrev KeepsLower : PairReply E.Store → Type 0
  KeepsLower r = AllLower r.manager.rate_limit_map

  open_session-AllLower :
      (at : FileTime) (host pin : Bytes) (client : ℕ) (ip : Bytes) (req : PairRequestPayload)
      (p : PairingManager) (store : E.Store)
      → AllLower p.rate_limit_map
      → KeepsLower (open_session at host pin client ip req p store)
  unfolding open_session
  open_session-AllLower at host [] client ip req p store a = a
  open_session-AllLower at host (c ∷ cs) client ip req p store a = a

  request-AllLower :
      (now at : FileTime) (sid host : Bytes) (draws : ℕ → Draw) (client : ℕ) (ip payload : Bytes)
      (p : PairingManager) (store : E.Store)
      → AllLower p.rate_limit_map
      → KeepsLower (handle_pair_request E now at sid host draws client ip payload p store)
  unfolding handle_pair_request
  request-AllLower now at sid host draws client ip payload p store a =
      let req = parse_pair_request payload in
      if_cases KeepsLower (not req.valid) _ _ (λ e. a)
        (λ e.
          if_cases KeepsLower (is_attempt_limited req.device_id now p.rate_limit_map) _ _ (λ f. a)
            (λ f.
              if_cases KeepsLower (is_device_active E req.device_id store) _ _ (λ g. a)
                (λ g.
                  if_cases KeepsLower (is_full E sid store) _ _ (λ h. a)
                    (λ h.
                      open_session-AllLower at host (generate_sas_pin draws) client ip req _ store
                        a))))

  confirm-AllLower :
      (now later : FileTime) (sid : Bytes) (client : ℕ) (payload : Bytes) (p : PairingManager)
      (store : E.Store)
      → AllLower p.rate_limit_map
      → KeepsLower (handle_pair_confirm E now later sid client payload p store)
  unfolding handle_pair_confirm reject_malformed reject_pin complete_pairing clear_failed_attempts
  confirm-AllLower now later sid client payload p store a =
      let conf = parse_pair_confirm payload in
      option_cases KeepsLower (find client p.sessions) _ _ (λ e. a)
        (λ s e.
          if_cases KeepsLower (not (is_waiting s.state)) _ _ (λ f. a)
            (λ f.
              if_cases KeepsLower (not conf.valid) _ _
                (λ g. record_failed_attempt-AllLower _ now p.rate_limit_map a)
                (λ g.
                  if_cases KeepsLower
                    (not (
                      validate_sas_pin now conf.sas_pin s.sas_pin s.sas_generated_at
                        s.sas_attempts))
                    _ _
                    (λ h.
                      if_cases KeepsLower
                        (sas_pin_expired later s.sas_generated_at
                          || leb sas_max_attempts (s.sas_attempts + 1))
                        _ _
                        (λ k. record_failed_attempt-AllLower s.device_id later p.rate_limit_map a)
                        (λ k. record_failed_attempt-AllLower s.device_id later p.rate_limit_map a))
                    (λ h.
                      if_cases KeepsLower (E.write_device_record (record_of s sid later) store).0 _
                        _ (λ k. AllEntries-erase IsLower _ p.rate_limit_map a)
                        (λ k. AllEntries-erase IsLower _ p.rate_limit_map a)))))

  unpair-AllLower :
      (payload : Bytes) (p : PairingManager) (store : E.Store)
      → AllLower p.rate_limit_map
      → KeepsLower (handle_unpair_request E payload p store)
  unfolding handle_unpair_request
  unpair-AllLower payload p store a =
      if_cases KeepsLower (not (length (json_get_string payload (codes "deviceId")) == 36)) _ _
        (λ e. a) (λ e. a)

  run_call-AllLower :
      (c : Call) (p : PairingManager) (store : E.Store)
      → AllLower p.rate_limit_map
      → AllLower (run_call E c p store).rate_limit_map
  unfolding run_call cancel_pairing_session expire_stale_sessions
  run_call-AllLower (requests now at sid host draws client ip payload) p store a =
      request-AllLower now at sid host draws client ip payload p store a
  run_call-AllLower (confirms now later sid client payload) p store a =
      confirm-AllLower now later sid client payload p store a
  run_call-AllLower (unpairs payload) p store a = unpair-AllLower payload p store a
  run_call-AllLower (cancels client) p store a = a
  run_call-AllLower (expires now) p store a = a

  run_calls-AllLower :
      (cs : List (Call × E.Store)) (p : PairingManager)
      → AllLower p.rate_limit_map
      → AllLower (run_calls E cs p).rate_limit_map
  unfolding run_calls
  run_calls-AllLower [] p a = a
  run_calls-AllLower ((c, store) ∷ cs) p a =
      run_calls-AllLower cs (run_call E c p store) (run_call-AllLower c p store a)

  -- A device that writes its identity with an upper-case digit is never limited, whatever attempts
  -- were made before: the failures are counted under the lower-case text.
  pub is_attempt_limited-upper :
      (cs : List (Call × E.Store)) (id : Bytes) (now : FileTime)
      → has_upper id ≡ true
      → is_attempt_limited id now (run_calls E cs no_manager).rate_limit_map ≡ false
  unfolding is_attempt_limited
  is_attempt_limited-upper cs id now upper =
      let m = (run_calls E cs no_manager).rate_limit_map in
      elim (Option-cases (find id m)) [
        | inl missing ↦ rw (missing, is_attempt_limited) refl
        | inr (v, e) ↦
            let lower : has_upper id ≡ false =
              AllEntries-find IsLower id v m (run_calls-AllLower cs no_manager tt) e in
            cc
      ]

-- Failures at the given times.
abbrev pub failures : Bytes → List FileTime → AttemptMap → AttemptMap
failures id [] m = m
failures id (t ∷ ts) m = failures id ts (record_failed_attempt id t m)

counted_once_more :
    (id : Bytes) (now start : FileTime) (count : ℕ) (m : AttemptMap)
    → find id m ≡ some (count, start)
    → find id (record_failed_attempt id now m) ≡ some (count + 1, start)
unfolding record_failed_attempt
counted_once_more id now start count m e =
    rw (e, record_failed_attempt)
      (ground (arith, find-insert id id (count + 1, start) m, bytes_eq_iff id id))

-- A minute after the first counted failure of a device the limit is off for it, however many
-- failures follow, since the window is not started anew.
is_attempt_limited-stale :
    (id : Bytes) (start now : FileTime) (count : ℕ) (ts : List FileTime) (m : AttemptMap)
    → find id m ≡ some (count, start)
    → 600000000 < (to_u64 now + 2 ^ 64 - to_u64 start) % 2 ^ 64
    → is_attempt_limited id now (failures id ts m) ≡ false
unfolding is_attempt_limited
is_attempt_limited-stale id start now count [] m e late = rw (e, is_attempt_limited) (ground arith)
is_attempt_limited-stale id start now count (t ∷ ts) m e late =
    is_attempt_limited-stale id start now (count + 1) ts (record_failed_attempt id t m)
      (counted_once_more id t start count m e) late
