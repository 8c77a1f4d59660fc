-- ===== src/Service/Lifecycle.antt =====
-- windows/service/MobileUnlockService.cpp: `StartServiceComponents` and `StopServiceComponents`.
pub mod Laws
use pc_unlock_project.Common.{
  Bool, true, false, not, if◌then◌else◌, List, [], ◌∷◌, ◌++◌, Option, none, some, codes,
}
use pc_unlock_project.Diagnostics.{ok, uninitialized, set_service_status, set_ipc_status}
use pc_unlock_project.Service.State.{
  ServiceState, Output, logged, service_fault, Effect, set_state, PcState, online, offline,
}

-- What the parts answer when they are started.
pub record Starts : Type 0 where
  pub config_loads : Bool
  pub ipc_starts : Bool
  pub engine_starts : Bool
  pub mdns_starts : Bool

module _ {Store : Type 0} where
  -- All parts are there. A responder that does not start stays as an object that announces nothing,
  -- and is logged.
  unfoldable pub finish_start : Starts → ServiceState Store → Bool × Effect Store
  finish_start w s =
      let with_mdns = record s {
        mdns_state = some online;
        mdns_runs = w.mdns_starts;
        diagnostics = set_ipc_status ok (codes "IPC Server active") (
            set_service_status ok (codes "Service, TCP/TLS Server, and mDNS active") s.diagnostics);
      } in
      (
        true,
        (
          record (set_state online with_mdns) { is_running = true },
          (if w.mdns_starts then [] else logged service_fault ∷ []) ++ logged service_fault ∷ [],
        ),
      )

  -- The answer, the service afterwards and what is logged.
  unfoldable pub start_service_components : Starts → ServiceState Store → Bool × Effect Store
  start_service_components w s =
      if s.is_running
      then (true, (s, []))
      else if not w.config_loads
      then (false, (s, logged service_fault ∷ []))
      else if not w.ipc_starts
      then (false, (record s { has_ipc_server = true }, logged service_fault ∷ []))
      else if not w.engine_starts
      then (
        false,
        (record s { has_ipc_server = true; has_network_engine = true }, logged service_fault ∷ []),
      )
      else finish_start w (record s { has_ipc_server = true; has_network_engine = true })

  unfoldable pub stop_service_components : ServiceState Store → Effect Store
  stop_service_components s =
      if not s.is_running
      then (s, [])
      else let stopped = record s {
        mdns_state = none;
        mdns_runs = false;
        has_network_engine = false;
        has_ipc_server = false;
      } in
        (
          record (set_state offline stopped) {
            diagnostics = set_service_status uninitialized (codes "Service stopped") s.diagnostics;
            is_running = false;
          },
          logged service_fault ∷ [],
        )
