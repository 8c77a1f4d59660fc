-- ===== src/Tests/Pairings.antt =====
-- The pairing manager at concrete sessions.
use pc_unlock_project.Common.{
  ℕ, inl, ◌≡◌, ◌↔◌, refl, false, List, [], ◌∷◌, some, Bytes, bytes_eq, All, length, arith, codes,
  replicate,
}
use pc_unlock_project.Common.Assoc.{find, bytes_Eq, nat_eq, AllEntries-find}
use pc_unlock_project.Protocol.Types.{pair_complete}
use pc_unlock_project.Text.Decimal.{IsDigit}
use pc_unlock_project.Pairing.SasPin.{FileTime, drawn}
use pc_unlock_project.Pairing.Manager.State.{
  PairingSession, PairingManager, AttemptMap, waiting_for_sas, is_attempt_limited,
}
use pc_unlock_project.Pairing.Manager.Confirm.{handle_pair_confirm}
use pc_unlock_project.Pairing.Manager.Calls.{Call, requests, confirms, run_call, run_calls}
use pc_unlock_project.Pairing.Manager.Pins.{Completes, handle_pair_confirm-complete_iff}
use pc_unlock_project.Pairing.Manager.Invariant.{AllSound, SoundEntry, run_call-AllSound}
use pc_unlock_project.Pairing.Manager.Attempts.{no_manager, is_attempt_limited-upper}
use pc_unlock_project.Tests.Samples.{phone, phone_text, records, Records, one_phone}

abbrev at : ℕ → FileTime
at n = record { high = 30; low = n }

abbrev session : PairingSession
session = record {
  device_id = phone;
  device_name = codes "Pixel";
  client_ip = codes "10.0.0.2";
  sas_pin = codes "042137";
  sas_generated_at = at 0;
  sas_attempts = 2;
  state = waiting_for_sas;
  session_client_id = 7;
  client_public_key = 4 ∷ [];
}

abbrev manager : PairingManager
manager = record { sessions = (7, session) ∷ []; rate_limit_map = [] }

abbrev confirmation : Bytes
confirmation = codes "{\"deviceId\":\"11111111-1111-1111-1111-111111111111\",\"sasPin\":\"042137\"}"

session-IsSound : AllSound manager.sessions
session-IsSound = (
  record {
    progress = inl (refl, omega arith);
    size = refl;
    digits = (
      omega arith,
      (omega arith, (omega arith, (omega arith, (omega arith, (omega arith, tt))))),
    );
    owner = refl;
  },
  tt,
)

six_digits_each :
    (s : PairingSession)
    → find 7 manager.sessions ≡ some s
    → (length s.sas_pin ≡ 6) × All IsDigit s.sas_pin
six_digits_each s e =
    let sound = AllEntries-find SoundEntry 7 s manager.sessions session-IsSound e in
    (sound.size, sound.digits)

handle_pair_confirm-complete_iff_example :
    ((handle_pair_confirm records
        (at 500000000)
        (at 500000001)
        (codes "S-1-5-21")
        7
        confirmation
        manager
        one_phone).type
      ≡ pair_complete)
    ↔ ((s : PairingSession) × Completes records
          (at 500000000)
          (at 500000001)
          (codes "S-1-5-21")
          7
          confirmation
          manager
          one_phone
          s)
handle_pair_confirm-complete_iff_example =
    handle_pair_confirm-complete_iff records (at 500000000) (at 500000001) (codes "S-1-5-21") 7
      confirmation manager one_phone six_digits_each

run_call-AllSound_example :
    AllSound
      (run_call records (confirms (at 5) (at 6) [] 7 (codes "{}")) manager one_phone).sessions
run_call-AllSound_example =
    run_call-AllSound records (confirms (at 5) (at 6) [] 7 (codes "{}")) manager one_phone
      session-IsSound

abbrev upper_text : Bytes
upper_text = codes "AAAAAAAA-AAAA-AAAA-AAAA-AAAAAAAAAAAA"

abbrev upper_request : Bytes
upper_request = codes "{\"deviceId\":\"AAAAAAAA-AAAA-AAAA-AAAA-AAAAAAAAAAAA\",\"deviceName\":\"x\"}"

abbrev upper_calls : List (Call × Records)
upper_calls =
    (requests (at 0) (at 0) [] [] (λ i. drawn 5) 3 [] upper_request, [])
    ∷ (confirms (at 1) (at 1) [] 3 (codes "{}"), [])
    ∷ (confirms (at 2) (at 2) [] 3 (codes "{}"), [])
    ∷ []

is_attempt_limited-upper_example :
    is_attempt_limited upper_text (at 3) (run_calls records upper_calls no_manager).rate_limit_map
    ≡ false
is_attempt_limited-upper_example =
    is_attempt_limited-upper records upper_calls upper_text (at 3) refl

abbrev one_failure : AttemptMap
one_failure = (phone_text, (1, at 0)) ∷ []

first_found : find phone_text one_failure ≡ some (1, at 0)
unfolding find bytes_eq
first_found = refl

abbrev many : List FileTime
many = replicate 9 (at 600000005)
