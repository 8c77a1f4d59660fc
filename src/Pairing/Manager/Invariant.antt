-- ===== src/Pairing/Manager/Invariant.antt =====
-- The state machine of a pairing session: what holds of every session, whatever is received.
use pc_unlock_project.Common.{
  ℕ, ◌+◌, ◌<◌, ◌≡◌, refl, ◌⊎◌, inl, inr, false, not, ◌==◌, ◌||◌, leb, [], ◌∷◌, Bytes, All, codes,
  length, arith, if_cases, option_cases,
}
use pc_unlock_project.Common.Assoc.{
  find, erase, nat_eq, erase-insert, AllEntries-insert, AllEntries-erase, AllEntries-find,
}
use pc_unlock_project.Text.Decimal.{IsDigit}
use pc_unlock_project.Pairing.SasPin.{
  FileTime, Draw, sas_pin_expired, validate_sas_pin, sas_max_attempts, generate_sas_pin,
}
use pc_unlock_project.Pairing.SasPin.Generate.{generate_sas_pin_lem}
use pc_unlock_project.Pairing.Record.{Devices, is_device_active}
use pc_unlock_project.Pairing.Messages.{
  PairRequestPayload, parse_pair_confirm, parse_pair_request, json_get_string,
}
use pc_unlock_project.Pairing.Manager.State.{
  PairingState, waiting_for_sas, failed, PairingSession, SessionMap, PairingManager, PairReply,
  clear_session, expire_sessions, cancel_pairing_session, expire_stale_sessions, is_attempt_limited,
}
use pc_unlock_project.Pairing.Manager.Calls.{
  Call, requests, confirms, unpairs, cancels, expires, run_call,
}
use pc_unlock_project.Pairing.Manager.Request.{
  handle_pair_request, open_session, new_session, is_full,
}
use pc_unlock_project.Pairing.Manager.Confirm.{
  handle_pair_confirm, handle_unpair_request, reject_malformed, reject_pin, complete_pairing,
  is_waiting, one_more, record_of,
}

-- A session waits for its PIN and has counted less than three failures, or it has failed with the
-- third; its PIN has six digits, and it is filed under its client.
pub record IsSound (client : ℕ) (s : PairingSession) : Type 0 where
  pub progress :
      ((s.state ≡ waiting_for_sas) × (s.sas_attempts < 3))
      ⊎ ((s.state ≡ failed) × (s.sas_attempts ≡ 3))
  pub size : length s.sas_pin ≡ 6
  pub digits : All IsDigit s.sas_pin
  pub owner : s.session_client_id ≡ client

abbrev pub SoundEntry : ℕ × PairingSession → Type 0
SoundEntry e = IsSound e.0 e.1

abbrev pub AllSound : SessionMap → Type 0
AllSound m = All SoundEntry m

open_session-AllSound :
    {Store : Type 0} (at : FileTime) (host : Bytes) (draws : ℕ → Draw) (client : ℕ) (ip : Bytes)
    (req : PairRequestPayload) (p : PairingManager) (store : Store)
    → AllSound p.sessions
    → AllSound
        (open_session at host (generate_sas_pin draws) client ip req p store).manager.sessions
unfolding open_session
open_session-AllSound at host draws client ip req p store a =
    of_pin (generate_sas_pin draws) (pin_form draws)
  where
    of_pin :
        (pin : Bytes)
        → (pin ≡ []) ⊎ ((length pin ≡ 6) × All IsDigit pin)
        → AllSound (open_session at host pin client ip req p store).manager.sessions
    of_pin [] form = a
    of_pin (c ∷ cs) (inl e) = cc
    of_pin (c ∷ cs) (inr (size, digits)) =
        AllEntries-insert SoundEntry client (new_session client ip req (c ∷ cs) at) p.sessions
          (record {
            progress = inl (refl, omega arith);
            size = size;
            digits = digits;
            owner = refl;
          })
          a

    pin_form :
        (draws : ℕ → Draw)
        → (generate_sas_pin draws ≡ [])
          ⊎ ((length (generate_sas_pin draws) ≡ 6) × All IsDigit (generate_sas_pin draws))
    pin_form draws = elim (generate_sas_pin_lem draws) [
      | inl (e, empty) ↦ inl empty
      | inr (e, size, digits, value) ↦ inr (size, digits)
    ]

expire_sessions-AllSound :
    (now : FileTime) (m : SessionMap) → AllSound m → AllSound (expire_sessions now m)
unfolding expire_sessions
expire_sessions-AllSound now [] a = tt
expire_sessions-AllSound now ((client, s) ∷ m) a =
    if_cases AllSound (sas_pin_expired now s.sas_generated_at) _ _
      (λ e. expire_sessions-AllSound now m a.1) (λ e. (a.0, expire_sessions-AllSound now m a.1))

waiting_few :
    (client : ℕ) (s : PairingSession)
    → s.state ≡ waiting_for_sas
    → IsSound client s
    → s.sas_attempts < 3
waiting_few client s w sound = elim sound.progress [
  | inl (state, few) ↦ few
  | inr (state, three) ↦ cc
]

is_waiting_lem : (q : PairingState) → not (is_waiting q) ≡ false → q ≡ waiting_for_sas
is_waiting_lem q h = ground arith

module _ (E : Devices) where
  abbrev Keeps : PairReply E.Store → Type 0
  Keeps r = AllSound r.manager.sessions

  request-AllSound :
      (now at : FileTime) (sid host : Bytes) (draws : ℕ → Draw) (client : ℕ) (ip payload : Bytes)
      (p : PairingManager) (store : E.Store)
      → AllSound p.sessions
      → Keeps (handle_pair_request E now at sid host draws client ip payload p store)
  unfolding handle_pair_request clear_session
  request-AllSound now at sid host draws client ip payload p store a =
      let req = parse_pair_request payload in
      let cleared = record p { sessions = erase client p.sessions } in
      let kept = AllEntries-erase SoundEntry client p.sessions a in
      if_cases Keeps (not req.valid) _ _ (λ e. kept)
        (λ e.
          if_cases Keeps (is_attempt_limited req.device_id now p.rate_limit_map) _ _ (λ f. kept)
            (λ f.
              if_cases Keeps (is_device_active E req.device_id store) _ _ (λ g. kept)
                (λ g.
                  if_cases Keeps (is_full E sid store) _ _ (λ h. kept)
                    (λ h. open_session-AllSound at host draws client ip req cleared store kept))))

  malformed-AllSound :
      (now : FileTime) (client : ℕ) (s : PairingSession) (p : PairingManager) (store : E.Store)
      → s.state ≡ waiting_for_sas
      → IsSound client s
      → AllSound p.sessions
      → Keeps (reject_malformed E now client s p store)
  unfolding reject_malformed
  malformed-AllSound now client s p store w sound a =
      AllEntries-insert SoundEntry client _ p.sessions
        (if_cases (IsSound client) (leb sas_max_attempts (s.sas_attempts + 1)) _ _
          (λ e. record {
            progress = inr (refl, ground (arith, waiting_few client s w sound));
            size = sound.size;
            digits = sound.digits;
            owner = sound.owner;
          })
          (λ e. record {
            progress = inl (w, ground (arith, waiting_few client s w sound));
            size = sound.size;
            digits = sound.digits;
            owner = sound.owner;
          }))
        a

  pin-AllSound :
      (now later : FileTime) (client : ℕ) (s : PairingSession) (p : PairingManager)
      (store : E.Store)
      → s.state ≡ waiting_for_sas
      → IsSound client s
      → AllSound p.sessions
      → Keeps (reject_pin E now later client s p store)
  unfolding reject_pin clear_session
  pin-AllSound now later client s p store w sound a =
      if_cases Keeps
        (sas_pin_expired later s.sas_generated_at || leb sas_max_attempts (s.sas_attempts + 1)) _ _
        (λ f.
          rw (erase-insert client (one_more s) p.sessions)
            (AllEntries-erase SoundEntry client p.sessions a))
        (λ f.
          AllEntries-insert SoundEntry client (one_more s) p.sessions
            (record {
              progress = inl (w, ground (arith, f));
              size = sound.size;
              digits = sound.digits;
              owner = sound.owner;
            })
            a)

  complete-AllSound :
      (later : FileTime) (sid : Bytes) (client : ℕ) (s : PairingSession) (p : PairingManager)
      (store : E.Store)
      → AllSound p.sessions
      → Keeps (complete_pairing E later sid client s p store)
  unfolding complete_pairing clear_session
  complete-AllSound later sid client s p store a =
      let (ok, store1) = E.write_device_record (record_of s sid later) store in
      let kept = AllEntries-erase SoundEntry client p.sessions a in
      if_cases Keeps ok _ _ (λ e. kept) (λ e. kept)

  confirm-AllSound :
      (now later : FileTime) (sid : Bytes) (client : ℕ) (payload : Bytes) (p : PairingManager)
      (store : E.Store)
      → AllSound p.sessions
      → Keeps (handle_pair_confirm E now later sid client payload p store)
  unfolding handle_pair_confirm
  confirm-AllSound now later sid client payload p store a =
      let conf = parse_pair_confirm payload in
      option_cases Keeps (find client p.sessions) _ _ (λ e. a)
        (λ s e.
          let sound = AllEntries-find SoundEntry client s p.sessions a e in
          if_cases Keeps (not (is_waiting s.state)) _ _ (λ f. a)
            (λ f.
              let w = is_waiting_lem s.state f in
              if_cases Keeps (not conf.valid) _ _
                (λ g. malformed-AllSound now client s p store w sound a)
                (λ g.
                  if_cases Keeps
                    (not (
                      validate_sas_pin now conf.sas_pin s.sas_pin s.sas_generated_at
                        s.sas_attempts))
                    _ _ (λ h. pin-AllSound later later client s p store w sound a)
                    (λ h. complete-AllSound later sid client s p store a))))

  unpair-AllSound :
      (payload : Bytes) (p : PairingManager) (store : E.Store)
      → AllSound p.sessions
      → Keeps (handle_unpair_request E payload p store)
  unfolding handle_unpair_request
  unpair-AllSound payload p store a =
      if_cases Keeps (not (length (json_get_string payload (codes "deviceId")) == 36)) _ _ (λ e. a)
        (λ e. a)

  -- Every call keeps the state machine: a session waits for its PIN with less than three failures
  -- or has failed with exactly three, its PIN has six digits, and it belongs to its client. So a failed
  -- session that is still there keeps its PIN, although PairingManager.h says that it is cleared.
  pub run_call-AllSound :
      (c : Call) (p : PairingManager) (store : E.Store)
      → AllSound p.sessions
      → AllSound (run_call E c p store).sessions
  unfolding run_call cancel_pairing_session expire_stale_sessions clear_session
  run_call-AllSound (requests now at sid host draws client ip payload) p store a =
      request-AllSound now at sid host draws client ip payload p store a
  run_call-AllSound (confirms now later sid client payload) p store a =
      confirm-AllSound now later sid client payload p store a
  run_call-AllSound (unpairs payload) p store a = unpair-AllSound payload p store a
  run_call-AllSound (cancels client) p store a = AllEntries-erase SoundEntry client p.sessions a
  run_call-AllSound (expires now) p store a = expire_sessions-AllSound now p.sessions a
