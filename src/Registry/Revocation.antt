-- ===== src/Registry/Revocation.antt =====
-- windows/pairing/DeviceRegistry.cpp, with the components that ask it: a device is refused by all of
-- them once PairingManager has unpaired it.
use pc_unlock_project.Common.{
  ℕ, ◌≡◌, refl, ◌∙◌, ◌⊎◌, inl, inr, Bool, false, [], Option, none, Bytes, length, codes, Bool-cases,
}
use pc_unlock_project.Protocol.Frame.{FrameHeader}
use pc_unlock_project.Protocol.SignedMessage.{SignedMessage}
use pc_unlock_project.Pairing.Messages.{json_get_string}
use pc_unlock_project.Pairing.Identity.{DeviceId, device_id_to_string}
use pc_unlock_project.Pairing.Identity.RoundTrip.{length-device_id_to_string}
use pc_unlock_project.Pairing.Record.{Devices, is_device_active}
use pc_unlock_project.Pairing.SasPin.{FileTime}
use pc_unlock_project.Pairing.Manager.State.{PairingManager}
use pc_unlock_project.Pairing.Manager.Confirm.{handle_unpair_request}
use pc_unlock_project.Auth.Types.{AuthState, unknown_device, rate_limited}
use pc_unlock_project.Auth.Request.{handle_auth_request, admit_request, refusal}
use pc_unlock_project.Auth.Limits.{is_rate_limited}
use pc_unlock_project.Lsa.Package.{status_no_such_user}
use pc_unlock_project.Lsa.Logon.{decide_device, denies}
use pc_unlock_project.Service.State.{ServiceState}
use pc_unlock_project.Service.Devices.{lock_request_device}
use pc_unlock_project.Service.Frames.{Surroundings, handle_lock_request}
use pc_unlock_project.Service.Authority.{
  Names, Names-unique, Names-length, reaches_agent, handled-cases, lock_request_device_long,
  authorized-active,
}
use pc_unlock_project.Registry.Win32.{WinRegistry, Documented}
use pc_unlock_project.Registry.Values.{build_device_key_path}
use pc_unlock_project.Registry.Records.{RegistryState, AclCalls}
use pc_unlock_project.Registry.Clients.{registry_devices, unpaired_none}

-- What a component does with a device that the registry does not know.
module _ (E : Devices) (id : DeviceId) where
  admit_refused :
      (now : ℕ) (random : Option Bytes) (request out : FrameHeader) (a : AuthState) (s : E.Store)
      → E.read_device_record (device_id_to_string id) s ≡ none
      → (admit_request E now random id request out a s).code ≡ unknown_device
  unfolding admit_request refusal
  admit_refused now random request out a s e = rw (e, admit_request) refl

  auth_refused :
      (now : ℕ) (random : Option Bytes) (request out : FrameHeader) (a : AuthState) (s : E.Store)
      → E.read_device_record (device_id_to_string id) s ≡ none
      → let code = (handle_auth_request E now random id request out a s).code in
        (code ≡ unknown_device) ⊎ (code ≡ rate_limited)
  unfolding handle_auth_request refusal
  auth_refused now random request out a s e =
      elim (Bool-cases (is_rate_limited (device_id_to_string id) now a.rate_limits).0) [
        | inl limited ↦ inr (rw (limited, handle_auth_request) refl)
        | inr free ↦
            inl (rw (free, handle_auth_request) (admit_refused now random request out _ s e))
      ]

  logon_refused :
      (verify : Bytes → SignedMessage → Bytes → Bool) (m : SignedMessage) (signature : Bytes)
      (s : E.Store)
      → E.read_device_record (device_id_to_string id) s ≡ none
      → decide_device E verify id m signature s ≡ denies status_no_such_user
  unfolding decide_device
  logon_refused verify m signature s e = rw (e, decide_device) refl

  inactive :
      (s : E.Store)
      → E.read_device_record (device_id_to_string id) s ≡ none
      → is_device_active E (device_id_to_string id) s ≡ false
  unfolding is_device_active
  inactive s e = rw (e, is_device_active) refl

  lock_refused :
      (w : Surroundings) (client : ℕ) (header : FrameHeader) (payload : Bytes)
      (s : ServiceState E.Store)
      → Names payload id
      → E.read_device_record (device_id_to_string id) s.store ≡ none
      → reaches_agent (handle_lock_request E w client header payload s).1 ≡ false
  lock_refused w client header payload s named e =
      let (other, f, named2) = lock_request_device_long payload w.unset (Names-length named) in
      let same : other ≡ id = Names-unique payload named2 named in
      handled-cases E w client header payload s
      ∙ rw
          (
            authorized-active E (lock_request_device payload w.unset) other s.store f,
            same,
            inactive s.store e,
          )
          refl

module _ (R : WinRegistry) (L : Documented R) (calls : AclCalls) (clock : FileTime) (fuel : ℕ)
    (payload : Bytes) (p : PairingManager) (s : RegistryState R) (id : DeviceId) where
  abbrev unpaired : RegistryState R
  unpaired = (handle_unpair_request (registry_devices R calls clock fuel) payload p s).store

  -- After an UNPAIR_REQUEST that names the device, whose key has no subkeys, every component refuses
  -- it: AuthenticationManager answers that the device is unknown, or that it asked too often; the LSA
  -- package denies the logon, whatever was signed; a request to lock that names it does not reach the
  -- agent.
  pub handle_unpair_request-refused :
      (now : ℕ) (random : Option Bytes) (request out : FrameHeader) (a : AuthState)
      → (verify : Bytes → SignedMessage → Bytes → Bool) (m : SignedMessage) (signature : Bytes)
      → (w : Surroundings) (client : ℕ) (header : FrameHeader) (lock_payload : Bytes)
        (v : ServiceState (RegistryState R))
      → length id ≡ 16
      → json_get_string payload (codes "deviceId") ≡ device_id_to_string id
      → L.subkeys s.root (build_device_key_path (device_id_to_string id)) s.store ≡ []
      → Names lock_payload id
      → (((handle_auth_request
              (registry_devices R calls clock fuel)
              now
              random
              id
              request
              out
              a
              unpaired).code
            ≡ unknown_device)
          ⊎ ((handle_auth_request
                (registry_devices R calls clock fuel)
                now
                random
                id
                request
                out
                a
                unpaired).code
              ≡ rate_limited))
        × (decide_device (registry_devices R calls clock fuel) verify id m signature unpaired
            ≡ denies status_no_such_user)
        × (reaches_agent
              (handle_lock_request
                (registry_devices R calls clock fuel)
                w
                client
                header
                lock_payload
                (record v { store = unpaired })).1
            ≡ false)
  handle_unpair_request-refused now random request out a verify m signature w client header
        lock_payload v n named leaf asked =
      let E = registry_devices R calls clock fuel in
      let gone =
        unpaired_none R L calls clock fuel payload (device_id_to_string id) p s named
          (length-device_id_to_string id n) leaf in
      (
        auth_refused E id now random request out a unpaired gone,
        logon_refused E id verify m signature unpaired gone,
        lock_refused E id w client header lock_payload (record v { store = unpaired }) asked gone,
      )
