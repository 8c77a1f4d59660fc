-- ===== src/Diagnostics.antt =====
-- windows/diagnostics/DiagnosticManager.h and .cpp: status and counters of the service.
use pc_unlock_project.Common.{ℕ, ◌+◌, ◌-◌, ◌/◌, ◌%◌, ◌^◌, ◌++◌, [], Bytes, codes}

pub data ComponentStatus : Type 0 where
  ok warning error_state uninitialized : ComponentStatus

-- The members. Texts are wide strings; times are milliseconds of the steady clock.
pub record DiagnosticManager : Type 0 where
  pub service_status : ComponentStatus
  pub ipc_status : ComponentStatus
  pub session_agent_status : ComponentStatus
  pub active_connections : ℕ  -- uint64_t
  pub total_messages_processed : ℕ  -- uint64_t
  pub service_details : Bytes
  pub ipc_details : Bytes
  pub session_agent_details : Bytes
  pub start_time : ℕ

pub record DiagnosticReport : Type 0 where
  pub service_status : ComponentStatus
  pub ipc_status : ComponentStatus
  pub session_agent_status : ComponentStatus
  pub active_connections : ℕ
  pub total_messages_processed : ℕ
  pub up_time_seconds : ℕ
  pub status_details : Bytes

-- The constructor.
abbrev pub new_manager : ℕ → DiagnosticManager
new_manager now = record {
  service_status = uninitialized;
  ipc_status = uninitialized;
  session_agent_status = uninitialized;
  active_connections = 0;
  total_messages_processed = 0;
  service_details = [];
  ipc_details = [];
  session_agent_details = [];
  start_time = now;
}

abbrev pub set_service_status : ComponentStatus → Bytes → DiagnosticManager → DiagnosticManager
set_service_status status details d = record d {
  service_status = status;
  service_details = details;
}

abbrev pub set_ipc_status : ComponentStatus → Bytes → DiagnosticManager → DiagnosticManager
set_ipc_status status details d = record d { ipc_status = status; ipc_details = details }

abbrev pub set_session_agent_status :
    ComponentStatus → Bytes → DiagnosticManager → DiagnosticManager
set_session_agent_status status details d = record d {
  session_agent_status = status;
  session_agent_details = details;
}

abbrev pub increment_processed_messages : DiagnosticManager → DiagnosticManager
increment_processed_messages d = record d {
  total_messages_processed = (d.total_messages_processed + 1) % 2 ^ 64;
}

abbrev pub set_active_connections : ℕ → DiagnosticManager → DiagnosticManager
set_active_connections count d = record d { active_connections = count }

unfoldable pub generate_report : ℕ → DiagnosticManager → DiagnosticReport
generate_report now d = record {
  service_status = d.service_status;
  ipc_status = d.ipc_status;
  session_agent_status = d.session_agent_status;
  active_connections = d.active_connections;
  total_messages_processed = d.total_messages_processed;
  up_time_seconds = (now - d.start_time) / 1000;
  status_details =
      codes "Service: "
      ++ (d.service_details
          ++ (codes " | IPC: "
              ++ (d.ipc_details ++ (codes " | Agent: " ++ d.session_agent_details))));
}
