-- ===== src/Service/Lifecycle/Laws.antt =====
-- windows/service/MobileUnlockService.cpp: which parts are there while the service runs, over starts,
-- stops, frames and messages.
use pc_unlock_project.Common.{
  ◌≡◌, ◌⊎◌, refl, ap, ◌∙◌, Bool, true, false, if◌then◌else◌, List, [], ◌∷◌, Option, none, some,
  Bytes,
}
use pc_unlock_project.Protocol.SignedMessage.{SignedMessage}
use pc_unlock_project.Pairing.Record.{Devices}
use pc_unlock_project.Service.State.{ServiceState, Effect, PcState, logged, service_fault}
use pc_unlock_project.Service.Sessions.{Event, service_step}
use pc_unlock_project.Service.Lifecycle.{Starts, start_service_components, stop_service_components}

-- The state that mDNS announces: the one that the responder holds, if it was started.
abbrev pub announced : {Store : Type 0} → ServiceState Store → Option PcState
announced s = if s.mdns_runs then s.mdns_state else none

-- Nothing is announced while the service does not run. While it runs its parts are there, and what is
-- announced, if anything, is the service's own state.
abbrev pub IsConsistent : {Store : Type 0} → ServiceState Store → Type 0
IsConsistent s =
    ((s.is_running ≡ false) × (s.mdns_runs ≡ false))
    ⊎ ((s.is_running ≡ true)
        × (s.has_ipc_server ≡ true)
        × (s.has_network_engine ≡ true)
        × (s.mdns_state ≡ some s.current_state)
        × (announced s ≡ (if s.mdns_runs then some s.current_state else none)))

module _ {Store : Type 0} where
  abbrev Keeps : Effect Store → Type 0
  Keeps eff = IsConsistent eff.0

module _ (E : Devices) (verify : Bytes → SignedMessage → Bytes → Bool) where
  -- What happens to a service.
  pub data Happening : Type 0 where
    starts : Starts → Happening
    stops : Happening
    handles : Event E verify → Happening

  unfoldable pub live : ServiceState E.Store → List Happening → ServiceState E.Store
  live s [] = s
  live s (starts w ∷ hs) = live (start_service_components w s).1.0 hs
  live s (stops ∷ hs) = live (stop_service_components s).0 hs
  live s (handles e ∷ hs) = live (service_step E verify s e).0 hs

module _ {Store : Type 0} where
  failed_start :
      (w : Starts) (s : ServiceState Store)
      → s.is_running ≡ false
      → w.config_loads ≡ true
      → w.ipc_starts ≡ true
      → w.engine_starts ≡ false
      → start_service_components w s ≡ (
        false,
        (record s { has_ipc_server = true; has_network_engine = true }, logged service_fault ∷ []),
      )
  unfolding start_service_components
  failed_start w s down config ipc engine =
      rw (down, config, ipc, engine, start_service_components) refl

  stop_idle : (s : ServiceState Store) → s.is_running ≡ false → stop_service_components s ≡ (s, [])
  unfolding stop_service_components
  stop_idle s down = rw (down, stop_service_components) refl

  -- A start whose network engine fails leaves the pipe server where it is, and a stop does not remove
  -- it, since the service does not run.
  stop-failed_start :
      (w : Starts) (s : ServiceState Store)
      → s.is_running ≡ false
      → w.config_loads ≡ true
      → w.ipc_starts ≡ true
      → w.engine_starts ≡ false
      → let (started, (s1, out)) = start_service_components w s in
        (started ≡ false) × ((stop_service_components s1).0 ≡ s1) × (s1.has_ipc_server ≡ true)
  stop-failed_start w s down config ipc engine =
      let e = failed_start w s down config ipc engine in
      (
        ap (λ (r : Bool × Effect Store). r.0) e,
        ap (λ (r : Effect Store). r.0)
            (stop_idle (start_service_components w s).1.0
              (ap (λ (r : Bool × Effect Store). r.1.0.is_running) e ∙ down)),
        ap (λ (r : Bool × Effect Store). r.1.0.has_ipc_server) e,
      )
