-- ===== src/Credential/Offers.antt =====
-- windows/credential_provider/MobileUnlockCredential.cpp: what the tile submits, as an abstract machine
-- that remembers the token of the last answer and nothing else.
use pc_unlock_project.Common.{
  ℕ, ◌≡◌, refl, ap, ◌∙◌, Bool, true, false, not, if◌then◌else◌, List, [], ◌∷◌, Option, none, some,
  Bytes, arith, Bool-cases, inl, inr,
}
use pc_unlock_project.Credential.Codes.{s_ok, s_false, return_credential_finished}
use pc_unlock_project.Credential.Tile.{
  MobileUnlockCredential, new_credential, advise, un_advise, thread_turn, take_token,
  set_deselected, fetch_auth_state, get_serialization, Serialization, without_credential,
  package_id,
}

-- What happens to a tile: Winlogon's calls, and the turns of the thread, with what the service answers.
pub data Event : Type 0 where
  advised : Bool → Event
  unadvised deselected : Event
  polled : Bool → Bool → Option Bytes → Event

abbrev step : Event → MobileUnlockCredential → MobileUnlockCredential
step (advised created) c = (advise true created c).1
step unadvised c = un_advise c
step deselected c = set_deselected c
step (polled connected sent answer) c = thread_turn (fetch_auth_state connected sent answer) c

-- The events stand latest first.
abbrev pub run : Bool → List Event → MobileUnlockCredential
run factory [] = new_credential factory
run factory (e ∷ es) = step e (run factory es)

-- The abstract machine.
pub record Offer : Type 0 where
  pub token : Option Bytes
  pub polling : Bool
  pub stopping : Bool
  pub reachable : Bool

abbrev pub offer_polled : Option Bytes → Offer → Offer
offer_polled t o =
    if o.stopping
    then record o { token = none }
    else if not o.reachable
    then o
    else record o { token = t }

abbrev pub offer_step : Event → Offer → Offer
offer_step (advised created) o = record o {
  stopping = if o.polling then o.stopping else false;
  polling = if o.polling then true else created;
}
offer_step unadvised o = record o { stopping = true; polling = false }
offer_step deselected o = record o { token = none }
offer_step (polled connected sent answer) o =
    offer_polled (fetch_auth_state connected sent answer) o

abbrev pub offers : Bool → List Event → Offer
offers factory [] = record { token = none; polling = false; stopping = false; reachable = factory }
offers factory (e ∷ es) = offer_step e (offers factory es)

-- The offer that a tile stands for.
abbrev offer_of : MobileUnlockCredential → Offer
offer_of c = record {
  token = if c.auth_state_ready then some c.internal_auth_buffer else none;
  polling = c.has_thread;
  stopping = c.stop_thread;
  reachable = c.has_ipc_factory;
}

offer_of-take_token :
    (t : Option Bytes) (c : MobileUnlockCredential)
    → offer_of (take_token t c) ≡ record (offer_of c) { token = t }
offer_of-take_token none c = refl
offer_of-take_token (some buffer) c = refl

offer_of-turn :
    (t : Option Bytes) (c : MobileUnlockCredential)
    → offer_of (thread_turn t c) ≡ offer_polled t (offer_of c)
unfolding thread_turn
offer_of-turn t c = elim (Bool-cases c.stop_thread) [
  | inl stopped ↦ rw (stopped, thread_turn) refl
  | inr going ↦ elim (Bool-cases c.has_ipc_factory) [
    | inl there ↦
        rw (going, there, thread_turn)
          (offer_of-take_token t (record c { stop_thread = false; has_ipc_factory = true }))
    | inr missing ↦ rw (going, missing, thread_turn) refl
  ]
]

offer_of-step :
    (e : Event) (c : MobileUnlockCredential) → offer_of (step e c) ≡ offer_step e (offer_of c)
unfolding advise un_advise set_deselected
offer_of-step (advised created) c = refl
offer_of-step unadvised c = refl
offer_of-step deselected c = refl
offer_of-step (polled connected sent answer) c =
    offer_of-turn (fetch_auth_state connected sent answer) c

offer_of-run : (factory : Bool) (es : List Event) → offer_of (run factory es) ≡ offers factory es
offer_of-run factory [] = refl
offer_of-run factory (e ∷ es) =
    offer_of-step e (run factory es) ∙ ap (offer_step e) (offer_of-run factory es)

-- What GetSerialization makes of a token.
abbrev pub submission : ℕ → ℕ → Option Bytes → Serialization
submission status id none = without_credential s_false
submission status id (some buffer) = record {
  result = s_ok;
  response = return_credential_finished;
  authentication_package = package_id status id;
  bytes = some buffer;
}

submission_lem :
    (status id : ℕ) (c : MobileUnlockCredential)
    → get_serialization status id true c ≡ submission status id (offer_of c).token
unfolding get_serialization
submission_lem status id c = elim (Bool-cases c.auth_state_ready) [
  | inl ready ↦ rw (ready, get_serialization) refl
  | inr waiting ↦ rw (waiting, get_serialization) refl
]

pub submission_bytes :
    (status id : ℕ) (t : Option Bytes) (buffer : Bytes)
    → (submission status id t).bytes ≡ some buffer
    → t ≡ some buffer
submission_bytes status id none buffer e = ground (arith, e)
submission_bytes status id (some b) buffer e = e

-- Whatever happened to the tile, it submits the buffer of the token that the abstract machine holds, and
-- nothing if that holds none: the last answer, if it was good, and the tile was not deselected and the
-- thread not ended since. Memory for the bytes is there.
pub get_serialization-offers :
    (factory : Bool) (es : List Event) (status id : ℕ)
    → get_serialization status id true (run factory es)
      ≡ submission status id (offers factory es).token
get_serialization-offers factory es status id =
    submission_lem status id (run factory es)
    ∙ ap (λ o. submission status id o.token) (offer_of-run factory es)
