-- ===== src/Pairing/Manager/Pins.antt =====
-- What a pairing needs: the session, its PIN in time, and the written record.
use pc_unlock_project.Common.{
  ℕ, ◌+◌, ◌≤◌, ◌<◌, ◌≡◌, ◌≢◌, ◌↔◌, true, false, not, ◌||◌, leb, [], ◌∷◌, some, Bytes, IsByte, All,
  length, arith, if_cases, option_cases,
}
use pc_unlock_project.Common.Assoc.{find, nat_eq}
use pc_unlock_project.Protocol.Types.{pair_complete}
use pc_unlock_project.Text.Decimal.{IsDigit}
use pc_unlock_project.Pairing.SasPin.{
  FileTime, to_u64, sas_pin_expired, validate_sas_pin, sas_max_attempts,
}
use pc_unlock_project.Pairing.SasPin.Laws.{validate_sas_pin_iff}
use pc_unlock_project.Pairing.Record.{Devices}
use pc_unlock_project.Pairing.Messages.{parse_pair_confirm}
use pc_unlock_project.Pairing.Manager.State.{
  PairingState, waiting_for_sas, PairingSession, PairingManager, PairReply,
}
use pc_unlock_project.Pairing.Manager.Confirm.{
  handle_pair_confirm, reject_malformed, reject_pin, complete_pairing, is_waiting, record_of,
}

-- The conditions under which a confirmation pairs the device of the session `s`.
pub record Completes (E : Devices) (now later : FileTime) (account_sid : Bytes) (client : ℕ)
    (payload : Bytes) (p : PairingManager) (store : E.Store) (s : PairingSession) : Type 0 where
  pub stored : find client p.sessions ≡ some s
  pub waiting : s.state ≡ waiting_for_sas
  pub valid : (parse_pair_confirm payload).valid ≡ true
  pub attempts : s.sas_attempts < 3
  pub begun : to_u64 s.sas_generated_at ≤ to_u64 now
  pub in_time : to_u64 now ≤ to_u64 s.sas_generated_at + 600000000
  pub same_pin : (parse_pair_confirm payload).sas_pin ≡ s.sas_pin
  pub written : (E.write_device_record (record_of s account_sid later) store).0 ≡ true

digits_are_bytes : (t : Bytes) → All IsDigit t → All IsByte t
digits_are_bytes [] h = tt
digits_are_bytes (c ∷ cs) h = (omega (arith, h.0), digits_are_bytes cs h.1)

is_waiting_iff : (q : PairingState) → (is_waiting q ≡ true) ↔ (q ≡ waiting_for_sas)
is_waiting_iff q = ground arith

module _ (E : Devices) where
  not_complete :
      (now : FileTime) (client : ℕ) (s : PairingSession) (p : PairingManager) (store : E.Store)
      → (reject_malformed E now client s p store).type ≢ pair_complete
  unfolding reject_malformed
  not_complete now client s p store e = cc

  pin_not_complete :
      (now later : FileTime) (client : ℕ) (s : PairingSession) (p : PairingManager)
      (store : E.Store)
      → (reject_pin E now later client s p store).type ≢ pair_complete
  unfolding reject_pin
  pin_not_complete now later client s p store =
      if_cases (λ (r : PairReply E.Store). r.type ≢ pair_complete)
        (sas_pin_expired later s.sas_generated_at || leb sas_max_attempts (s.sas_attempts + 1)) _ _
        (λ f e. cc) (λ f e. cc)

  complete_written :
      (later : FileTime) (account_sid : Bytes) (client : ℕ) (s : PairingSession)
      (p : PairingManager) (store : E.Store)
      → ((complete_pairing E later account_sid client s p store).type ≡ pair_complete)
        ↔ ((E.write_device_record (record_of s account_sid later) store).0 ≡ true)
  unfolding complete_pairing
  complete_written later account_sid client s p store = ground arith

  paired_by :
      (now later : FileTime) (account_sid : Bytes) (client : ℕ) (payload : Bytes)
      (p : PairingManager) (store : E.Store) (s : PairingSession)
      → find client p.sessions ≡ some s
      → not (is_waiting s.state) ≡ false
      → not (parse_pair_confirm payload).valid ≡ false
      → not (
          validate_sas_pin now
            (parse_pair_confirm payload).sas_pin
            s.sas_pin
            s.sas_generated_at
            s.sas_attempts)
        ≡ false
      → (complete_pairing E later account_sid client s p store).type ≡ pair_complete
      → All IsByte s.sas_pin
      → Completes E now later account_sid client payload p store s
  paired_by now later account_sid client payload p store s e f g k h bytes =
      let conf = parse_pair_confirm payload in
      let (few, begun, in_time, size, digits, same) =
        (validate_sas_pin_iff now conf.sas_pin s.sas_pin s.sas_generated_at s.sas_attempts bytes).0
          (ground arith) in
      record {
        stored = e;
        waiting = (is_waiting_iff s.state).0 (ground arith);
        valid = ground arith;
        attempts = few;
        begun = begun;
        in_time = in_time;
        same_pin = same;
        written = (complete_written later account_sid client s p store).0 h;
      }

  completes :
      (now later : FileTime) (account_sid : Bytes) (client : ℕ) (payload : Bytes)
      (p : PairingManager) (store : E.Store)
      → ((s : PairingSession) → find client p.sessions ≡ some s → All IsByte s.sas_pin)
      → (handle_pair_confirm E now later account_sid client payload p store).type ≡ pair_complete
      → (s : PairingSession) × Completes E now later account_sid client payload p store s
  unfolding handle_pair_confirm
  completes now later account_sid client payload p store bytes =
      let conf = parse_pair_confirm payload in
      let P : PairReply E.Store → Type 0 = λ r.
        r.type ≡ pair_complete
        → (s : PairingSession) × Completes E now later account_sid client payload p store s in
      option_cases P (find client p.sessions) _ _ (λ e h. cc)
        (λ s e.
          if_cases P (not (is_waiting s.state)) _ _ (λ f h. cc)
            (λ f.
              if_cases P (not conf.valid) _ _ (λ g h. absurd (not_complete now client s p store h))
                (λ g.
                  if_cases P
                    (not (
                      validate_sas_pin now conf.sas_pin s.sas_pin s.sas_generated_at
                        s.sas_attempts))
                    _ _ (λ k h. absurd (pin_not_complete later later client s p store h))
                    (λ k h. (
                      s,
                      paired_by now later account_sid client payload p store s e f g k h
                          (bytes s e),
                    )))))

  is_completed :
      (now later : FileTime) (account_sid : Bytes) (client : ℕ) (payload : Bytes)
      (p : PairingManager) (store : E.Store) (s : PairingSession)
      → (length s.sas_pin ≡ 6) × All IsDigit s.sas_pin
      → All IsByte s.sas_pin
      → Completes E now later account_sid client payload p store s
      → (handle_pair_confirm E now later account_sid client payload p store).type ≡ pair_complete
  unfolding handle_pair_confirm complete_pairing
  is_completed now later account_sid client payload p store s form bytes h =
      let conf = parse_pair_confirm payload in
      let ok : validate_sas_pin now conf.sas_pin s.sas_pin s.sas_generated_at s.sas_attempts
          ≡ true =
        (validate_sas_pin_iff now conf.sas_pin s.sas_pin s.sas_generated_at s.sas_attempts bytes).1
          (
            h.attempts,
            h.begun,
            h.in_time,
            rw h.same_pin form.0,
            rw h.same_pin form.1,
            h.same_pin,
          ) in
      rw (h.stored, h.waiting, h.valid, ok, handle_pair_confirm)
        ((complete_written later account_sid client s p store).1 h.written)

  -- The pairing completes exactly if the client has a session that waits for the PIN, the payload
  -- is well formed and carries the session's PIN, it comes within sixty seconds of the PIN's
  -- generation and before the third failure, and the record is written.
  pub handle_pair_confirm-complete_iff :
      (now later : FileTime) (account_sid : Bytes) (client : ℕ) (payload : Bytes)
      (p : PairingManager) (store : E.Store)
      → ((s : PairingSession)
          → find client p.sessions ≡ some s
          → (length s.sas_pin ≡ 6) × All IsDigit s.sas_pin)
      → ((handle_pair_confirm E now later account_sid client payload p store).type ≡ pair_complete)
        ↔ ((s : PairingSession) × Completes E now later account_sid client payload p store s)
  handle_pair_confirm-complete_iff now later account_sid client payload p store form = (
    completes now later account_sid client payload p store
        (λ s e. digits_are_bytes s.sas_pin (form s e).1),
    λ (s, h).
        is_completed now later account_sid client payload p store s (form s h.stored)
          (digits_are_bytes s.sas_pin (form s h.stored).1) h,
  )
