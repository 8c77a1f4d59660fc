-- ===== src/Pairing/Manager/Calls.antt =====
-- The calls that reach the pairing manager, and runs of them.
use pc_unlock_project.Common.{ℕ, List, [], ◌∷◌, Bytes}
use pc_unlock_project.Pairing.SasPin.{FileTime, Draw}
use pc_unlock_project.Pairing.Record.{Devices}
use pc_unlock_project.Pairing.Manager.State.{
  PairingManager, cancel_pairing_session, expire_stale_sessions,
}
use pc_unlock_project.Pairing.Manager.Request.{handle_pair_request}
use pc_unlock_project.Pairing.Manager.Confirm.{handle_pair_confirm, handle_unpair_request}

-- The calls of the manager.
pub data Call : Type 0 where
  requests : FileTime → FileTime → Bytes → Bytes → (ℕ → Draw) → ℕ → Bytes → Bytes → Call
  confirms : FileTime → FileTime → Bytes → ℕ → Bytes → Call
  unpairs : Bytes → Call
  cancels : ℕ → Call
  expires : FileTime → Call

-- The manager after a call; the registry is an argument, since other parts of the program change it.
unfoldable pub run_call : (E : Devices) → Call → PairingManager → E.Store → PairingManager
run_call E (requests now at sid host draws client ip payload) p store =
    (handle_pair_request E now at sid host draws client ip payload p store).manager
run_call E (confirms now later sid client payload) p store =
    (handle_pair_confirm E now later sid client payload p store).manager
run_call E (unpairs payload) p store = (handle_unpair_request E payload p store).manager
run_call E (cancels client) p store = (cancel_pairing_session client p).0
run_call E (expires now) p store = expire_stale_sessions now p

unfoldable pub run_calls : (E : Devices) → List (Call × E.Store) → PairingManager → PairingManager
run_calls E [] p = p
run_calls E ((c, store) ∷ cs) p = run_calls E cs (run_call E c p store)
