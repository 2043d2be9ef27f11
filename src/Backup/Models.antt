-- ===== src/Backup/Models.antt =====
-- The tables of aggregator_demo/database.py that a backup holds, in the order of `_MODELS` of
-- aggregator_demo/admin.py, with the names of their columns and which of them are times.
use depotflux_demo.Prelude.{true, false, List, [], ◌∷◌, String}
use depotflux_demo.Backup.{Column, Model}

abbrev plain : String → Column
plain name = record { name = name; is_datetime = false }

abbrev time : String → Column
time name = record { name = name; is_datetime = true }

-- `RunRow`
abbrev pub run_model : Model
run_model = record {
  tablename = "optimization_runs";
  columns =
      plain "id"
      ∷ plain "idempotency_key"
      ∷ plain "request_fingerprint"
      ∷ plain "status"
      ∷ plain "run_type"
      ∷ plain "optimization_mode"
      ∷ plain "input_reference"
      ∷ plain "input_sha256"
      ∷ plain "v2g_enabled"
      ∷ plain "agent_backend"
      ∷ plain "scenario_ids"
      ∷ plain "requested_by"
      ∷ time "created_at"
      ∷ time "updated_at"
      ∷ time "started_at"
      ∷ time "completed_at"
      ∷ plain "failure_code"
      ∷ plain "failure_message"
      ∷ plain "worker_id"
      ∷ time "heartbeat_at"
      ∷ plain "recovery_count"
      ∷ time "last_recovered_at"
      ∷ plain "solver_name"
      ∷ plain "result_sha256"
      ∷ plain "result_payload"
      ∷ [];
}

-- `OperationalNoticeRow`
abbrev pub notice_model : Model
notice_model = record {
  tablename = "operational_notices";
  columns =
      plain "id"
      ∷ plain "baseline_run_id"
      ∷ plain "candidate_run_id"
      ∷ plain "scenario"
      ∷ plain "source"
      ∷ plain "raw_notice"
      ∷ plain "structured_facts"
      ∷ plain "interpretation_backend"
      ∷ plain "confidence"
      ∷ plain "replan_recommended"
      ∷ plain "rationale"
      ∷ plain "created_by"
      ∷ time "created_at"
      ∷ [];
}

-- `ApprovalRow`
abbrev pub approval_model : Model
approval_model = record {
  tablename = "operator_approvals";
  columns =
      plain "id"
      ∷ plain "run_id"
      ∷ plain "decision"
      ∷ plain "decided_by"
      ∷ plain "result_sha256"
      ∷ plain "note"
      ∷ time "created_at"
      ∷ [];
}

-- `ControlSimulationRow`
abbrev pub simulation_model : Model
simulation_model = record {
  tablename = "control_simulations";
  columns =
      plain "id"
      ∷ plain "run_id"
      ∷ plain "interval_index"
      ∷ plain "setpoint_kw"
      ∷ plain "unit_id"
      ∷ plain "register_address"
      ∷ plain "register_scale_kw"
      ∷ plain "modbus_frame_hex"
      ∷ plain "result_sha256"
      ∷ plain "policy_version"
      ∷ plain "policy_checks"
      ∷ plain "requested_by"
      ∷ time "created_at"
      ∷ [];
}

-- `OTDispatchAttemptRow`
abbrev pub attempt_model : Model
attempt_model = record {
  tablename = "ot_dispatch_attempts";
  columns =
      plain "id"
      ∷ plain "run_id"
      ∷ plain "interval_index"
      ∷ plain "command_id"
      ∷ plain "correlation_id"
      ∷ plain "action"
      ∷ plain "decision"
      ∷ plain "reason_code"
      ∷ plain "reason_message"
      ∷ plain "setpoint_kw"
      ∷ plain "result_sha256"
      ∷ plain "modbus_frame_hex"
      ∷ plain "response_frame_hex"
      ∷ plain "policy_checks"
      ∷ plain "controller_response"
      ∷ plain "requested_by"
      ∷ time "issued_at"
      ∷ time "completed_at"
      ∷ time "created_at"
      ∷ [];
}

-- `SecurityEventRow`
abbrev pub event_model : Model
event_model = record {
  tablename = "security_events";
  columns =
      plain "id"
      ∷ plain "event_type"
      ∷ plain "severity"
      ∷ plain "correlation_id"
      ∷ plain "run_id"
      ∷ plain "actor"
      ∷ plain "source_zone"
      ∷ plain "destination"
      ∷ plain "outcome"
      ∷ plain "reason_code"
      ∷ plain "details"
      ∷ time "occurred_at"
      ∷ [];
}

-- `_MODELS`
unfoldable pub backup_models : List Model
backup_models =
    run_model ∷ notice_model ∷ approval_model ∷ simulation_model ∷ attempt_model ∷ event_model ∷ []
