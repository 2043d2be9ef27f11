-- ===== src/Dispatch/Evidence.antt =====
-- `_persist` and `_reject` of aggregator_demo/dispatch_repository.py, with `OTDispatchAttemptRow` and
-- `SecurityEventRow` of database.py. Labels, details and messages, which are texts for the reader,
-- are left out.
use depotflux_demo.Prelude.{
  ℕ, Bool, true, false, Option, none, some, List, [], ◌∷◌, ◌++◌, String, if◌then◌else◌, Result, err,
}
use depotflux_demo.Floats.{Floats}
use depotflux_demo.Modbus.Bytes.{Bytes}
use depotflux_demo.Gateway.{replayed_command, ControllerResponse}
use depotflux_demo.Gateway.HttpClient.{ClientError, client_policy, unavailable_policy}
use depotflux_demo.Approvals.Timeline.{DispatchDecision, accepted, failed}

-- The codes of the policy checks.
pub data CheckCode : Type 0 where
  separate_control_credential successful_candidate immutable_operator_approval : CheckCode
  approval_result_hash deterministic_validation interval_in_horizon : CheckCode
  site_capacity_envelope separate_emergency_credential : CheckCode

-- `DispatchPolicyCheckResponse`
pub record Check : Type 0 where
  pub code : CheckCode
  pub passed : Bool

pub data ReasonCode : Type 0 where
  dispatch_disabled safe_state_disabled invalid_credential ot_gateway_disabled : ReasonCode
  check_failed : CheckCode → ReasonCode
  gateway_code : ClientError → ReasonCode
  dispatch_applied emergency_activated : ReasonCode

pub data DispatchAction : Type 0 where
  dispatch_schedule emergency_stop : DispatchAction

pub data EventName : Type 0 where
  approved_dispatch_applied controller_exchange_failed dispatch_rejected : EventName
  safe_state_activated : EventName

pub data Severity : Type 0 where
  info medium high : Severity

pub record DispatchAttempt ⦃F : Floats⦄ : Type 0 where
  pub id : ℕ
  pub run_id : Option ℕ
  pub interval_index : Option ℕ
  pub command_id : ℕ
  pub correlation_id : ℕ
  pub action : DispatchAction
  pub decision : DispatchDecision
  pub reason_code : ReasonCode
  pub setpoint_kw : Option F.Float
  pub result_sha256 : Option String
  pub modbus_frame : Option Bytes
  pub response_frame : Option Bytes
  pub policy_checks : List Check
  pub controller_response : Option ControllerResponse
  pub requested_by : String
  pub issued_at : ℕ
  pub completed_at : ℕ
  pub created_at : ℕ

-- The last five fields are those of `details`.
pub record SecurityEvent ⦃F : Floats⦄ : Type 0 where
  pub id : ℕ
  pub event_type : EventName
  pub severity : Severity
  pub correlation_id : ℕ
  pub run_id : Option ℕ
  pub actor : String
  pub source_zone : String
  pub destination : String
  pub outcome : DispatchDecision
  pub reason_code : ReasonCode
  pub occurred_at : ℕ
  pub action : DispatchAction
  pub attempt_id : ℕ
  pub command_id : ℕ
  pub interval_index : Option ℕ
  pub setpoint_kw : Option F.Float

-- The two tables.
pub record EvidenceLog ⦃F : Floats⦄ : Type 0 where
  pub attempts : List DispatchAttempt
  pub events : List SecurityEvent

-- What every row of a call shares: the arguments of the call, the new UUIDs and the time of the
-- commit.
pub record Submission : Type 0 where
  pub run_id : Option ℕ
  pub interval_index : Option ℕ
  pub command_id : ℕ
  pub correlation_id : ℕ
  pub requested_by : String
  pub issued_at : ℕ
  pub attempt_id : ℕ
  pub event_id : ℕ
  pub completed : ℕ

-- The submission of an interval of a run, and of a safe state, which has none.
unfoldable pub for_interval : ℕ → ℕ → Submission → Submission
for_interval run_id interval_index sub = record sub {
  run_id = some run_id;
  interval_index = some interval_index;
}

unfoldable pub for_site : Submission → Submission
for_site sub = record sub { run_id = none; interval_index = none }

-- `RunNotFoundError`, `DispatchRejectedError` with its attempt and status code, the error of the
-- input registry, and any other exception, which nothing catches.
pub data DispatchError ⦃F : Floats⦄ : Type 0 where
  unknown_run input_error uncaught : DispatchError
  rejected : DispatchAttempt → ℕ → DispatchError

-- `reason_code in {"invalid_credential", "replayed_command"}`
abbrev is_severe : ReasonCode → Bool
is_severe invalid_credential = true
is_severe (gateway_code (client_policy replayed_command)) = true
is_severe (gateway_code (unavailable_policy replayed_command)) = true
is_severe _ = false

abbrev is_failure : DispatchDecision → Bool
is_failure failed = true
is_failure _ = false

module _ ⦃F : Floats⦄ where
  -- The attempt of a call that was not accepted.
  unfoldable pub rejected_attempt :
      Submission
      → DispatchAction
      → DispatchDecision
      → ReasonCode
      → Option F.Float
      → Option String
      → List Check
      → DispatchAttempt
  rejected_attempt s action decision reason_code setpoint_kw result_sha256 checks = record {
    id = s.attempt_id;
    run_id = s.run_id;
    interval_index = s.interval_index;
    command_id = s.command_id;
    correlation_id = s.correlation_id;
    action = action;
    decision = decision;
    reason_code = reason_code;
    setpoint_kw = setpoint_kw;
    result_sha256 = result_sha256;
    modbus_frame = none;
    response_frame = none;
    policy_checks = checks;
    controller_response = none;
    requested_by = s.requested_by;
    issued_at = s.issued_at;
    completed_at = s.completed;
    created_at = s.completed;
  }

  unfoldable pub accepted_attempt :
      Submission
      → DispatchAction
      → ReasonCode
      → F.Float
      → Option String
      → List Check
      → ControllerResponse
      → DispatchAttempt
  accepted_attempt s action reason_code setpoint_kw result_sha256 checks controller = record {
    id = s.attempt_id;
    run_id = s.run_id;
    interval_index = s.interval_index;
    command_id = s.command_id;
    correlation_id = s.correlation_id;
    action = action;
    decision = accepted;
    reason_code = reason_code;
    setpoint_kw = some setpoint_kw;
    result_sha256 = result_sha256;
    modbus_frame = some controller.frame;
    response_frame = some controller.response_frame;
    policy_checks = checks;
    controller_response = some controller;
    requested_by = s.requested_by;
    issued_at = s.issued_at;
    completed_at = s.completed;
    created_at = s.completed;
  }

  -- The event of `_persist`, with an outcome of its own beside the columns of the attempt.
  unfoldable pub event_of_attempt :
      ℕ → EventName → Severity → DispatchDecision → DispatchAttempt → SecurityEvent
  event_of_attempt event_id event_type severity outcome attempt = record {
    id = event_id;
    event_type = event_type;
    severity = severity;
    correlation_id = attempt.correlation_id;
    run_id = attempt.run_id;
    actor = attempt.requested_by;
    source_zone = "enterprise-operator";
    destination = "supervisory-gateway";
    outcome = outcome;
    reason_code = attempt.reason_code;
    occurred_at = attempt.completed_at;
    action = attempt.action;
    attempt_id = attempt.id;
    command_id = attempt.command_id;
    interval_index = attempt.interval_index;
    setpoint_kw = attempt.setpoint_kw;
  }

  -- `_persist`: both rows in one commit
  unfoldable pub persist :
      ℕ → EventName → Severity → DispatchDecision → DispatchAttempt → EvidenceLog → EvidenceLog
  persist event_id event_type severity outcome attempt e = record {
    attempts = e.attempts ++ attempt ∷ [];
    events = e.events ++ event_of_attempt event_id event_type severity outcome attempt ∷ [];
  }

  -- `_reject`, on the evidence and the state behind the gateway
  unfoldable pub reject :
      {A S : Type 0}
      → ℕ
      → DispatchAttempt
      → ℕ
      → EvidenceLog × S
      → Result DispatchError A × (EvidenceLog × S)
  reject event_id attempt status_code (e, s) = (
    err (rejected attempt status_code),
    (
      persist event_id
          (if is_failure attempt.decision then controller_exchange_failed else dispatch_rejected)
          (if is_severe attempt.reason_code then high else medium) attempt.decision attempt e,
      s,
    ),
  )
