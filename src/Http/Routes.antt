-- ===== src/Http/Routes.antt =====
-- The handlers of the routes of aggregator_demo/app.py. Of the times and new UUIDs of a request
-- each handler takes what it uses.
use depotflux_demo.Prelude.{
  ℕ, ◌+◌, true, Option, none, some, List, [], ◌∷◌, String, map, Result, ok, err,
}
use depotflux_demo.Floats.{Floats}
use depotflux_demo.Runs.Row.{RunCreateRequest, day_ahead, selfish}
use depotflux_demo.Runs.Repository.{
  RunError, not_found, conflict, get_row, result, request_cancellation,
}
use depotflux_demo.Runs.Create.{create}
use depotflux_demo.Runs.Listing.{list_runs}
use depotflux_demo.Approvals.{
  ApprovalCreateRequest, ApprovalError, unknown_run as unknown_approval_run, undecided,
  decision_conflict, get_approval, create_approval,
}
use depotflux_demo.Approvals.Timeline.{
  OperationalNoticeRow, ControlSimulationRow, DispatchAttemptRow, timeline,
}
use depotflux_demo.Notices.{
  NoticeRow, NoticeCreateRequest, NoticeCall, NoticeError, unknown_baseline, no_approved_baseline,
  other_notice, no_notice, has_notice, run_failed, find_by_candidate, create_simulated,
}
use depotflux_demo.Control.{
  ControlError, control_conversion, frame_length, not_single_write, not_configured,
  invalid_credential, authenticate_control_key,
}
use depotflux_demo.Simulations.{
  SimulationRow, SimulationCall, SimulationError, unknown_run as unknown_simulation_run,
  policy_failed, control_failed, create_simulation,
}
use depotflux_demo.Dispatch.Evidence.{
  DispatchAttempt, EvidenceLog, Submission, DispatchError, unknown_run as unknown_dispatch_run,
  rejected,
}
use depotflux_demo.Dispatch.Gate.{activate_safe_state}
use depotflux_demo.Dispatch.{dispatch_interval}
use depotflux_demo.Registry.{
  RegistryError, unknown_reference, os_error, no_dict, text_error, verify, list_inputs,
}
use depotflux_demo.Http.Lists.{
  control_key_answer, list_notices, get_notice, list_security_events, list_dispatch_simulations,
  list_control_simulations,
}
use depotflux_demo.Http.Status.{read_controller_status}
use depotflux_demo.Auth.{operator, approver, admin, Principal}
use depotflux_demo.Http.{
  Answer, answered, refused, unhandled, Headers, Body, inputs_body, run_body, runs_body,
  approval_body, timeline_body, notice_body, attempt_body, simulation_body, Service, Application,
  key_accepted, is_configured, with_principal, with_roles, load_input,
}

pub data FailureDrill : Type 0 where
  infeasible_drill solver_timeout_drill : FailureDrill

-- `f"failure_drill:{request.drill_type.value}"`
abbrev drill_scenario : FailureDrill → String
drill_scenario infeasible_drill = "failure_drill:infeasible"
drill_scenario solver_timeout_drill = "failure_drill:solver_timeout"

-- The request that `create_failure_drill` builds.
unfoldable pub drill_request : String → String → FailureDrill → RunCreateRequest
drill_request input_reference input_sha256 drill = record {
  run_type = day_ahead;
  optimization_mode = selfish;
  input_reference = input_reference;
  input_sha256 = input_sha256;
  v2g_enabled = true;
  scenario_ids = drill_scenario drill ∷ [];
}

-- The times and UUIDs that serving a request takes: of a new row and of a second one, of a command,
-- and of its end.
pub record Fresh : Type 0 where
  pub id : ℕ
  pub now : ℕ
  pub second_id : ℕ
  pub later : ℕ
  pub command : ℕ
  pub correlation : ℕ
  pub completed : ℕ

-- `DispatchCreateRequest`
pub record DispatchCreateRequest : Type 0 where
  pub interval_index : ℕ
  pub command_id : Option ℕ
  pub issued_at : Option ℕ
  pub expires_at : Option ℕ

abbrev or_default : Option ℕ → ℕ → ℕ
or_default none default = default
or_default (some n) default = n

-- The handlers of `DemoInputNotFoundError` and `DemoInputIntegrityError`.
unfoldable pub registry_answer : {B : Type 0} → RegistryError → Answer B
registry_answer unknown_reference = refused 422 "input_reference_unknown"
registry_answer os_error = unhandled
registry_answer no_dict = unhandled
registry_answer text_error = unhandled
registry_answer _ = refused 409 "input_integrity_error"

-- The handlers of `RunNotFoundError` and of `RunConflictError`, with the code of the route.
unfoldable pub run_error_answer : {B : Type 0} → String → RunError → Answer B
run_error_answer code not_found = refused 404 "run_not_found"
run_error_answer code conflict = refused 409 code
run_error_answer code _ = unhandled

unfoldable pub approval_error_answer : {B : Type 0} → ApprovalError → Answer B
approval_error_answer unknown_approval_run = refused 404 "run_not_found"
approval_error_answer undecided = refused 404 "approval_not_found"
approval_error_answer decision_conflict = refused 409 "approval_conflict"
approval_error_answer _ = unhandled

unfoldable pub notice_error_answer : {B : Type 0} → NoticeError → Answer B
notice_error_answer unknown_baseline = refused 404 "baseline_run_not_found"
notice_error_answer no_approved_baseline = refused 409 "notice_conflict"
notice_error_answer other_notice = refused 409 "notice_conflict"
notice_error_answer no_notice = refused 409 "notice_conflict"
notice_error_answer has_notice = refused 409 "notice_conflict"
notice_error_answer (run_failed conflict) = refused 409 "notice_conflict"
notice_error_answer (run_failed not_found) = refused 404 "baseline_run_not_found"
notice_error_answer _ = unhandled

-- The `ControlPolicyError`s among the errors of ot_security.py.
unfoldable pub control_error_answer : {B : Type 0} → ControlError → Answer B
control_error_answer control_conversion = unhandled
control_error_answer frame_length = unhandled
control_error_answer not_single_write = unhandled
control_error_answer not_configured = unhandled
control_error_answer invalid_credential = unhandled
control_error_answer _ = refused 409 "control_policy_rejected"

unfoldable pub simulation_error_answer : {B : Type 0} → SimulationError → Answer B
simulation_error_answer unknown_simulation_run = refused 404 "run_not_found"
simulation_error_answer (policy_failed _) = refused 409 "control_policy_rejected"
simulation_error_answer (control_failed error) = control_error_answer error
simulation_error_answer _ = unhandled

-- An answer with the value of a call, or that of its error.
abbrev pub answer_of : {E A B : Type 0} → ℕ → (A → B) → (E → Answer B) → Result E A → Answer B
answer_of status body failure (ok a) = answered status (body a)
answer_of status body failure (err e) = failure e

module _ ⦃F : Floats⦄ where
  open F use {Float}

  -- The columns that the timeline reads.
  abbrev notice_columns : NoticeRow → OperationalNoticeRow
  notice_columns n = record {
    candidate_run_id = n.candidate_run_id;
    created_at = n.created_at;
    created_by = n.created_by;
  }

  abbrev simulation_columns : SimulationRow → ControlSimulationRow
  simulation_columns r = record {
    run_id = r.run_id;
    created_at = r.created_at;
    requested_by = r.requested_by;
  }

  abbrev attempt_columns : DispatchAttempt → DispatchAttemptRow
  attempt_columns a = record {
    run_id = a.run_id;
    decision = a.decision;
    completed_at = a.completed_at;
    requested_by = a.requested_by;
  }

  -- The rows of a dispatch or a safe state: the defaults of `command_id`, `issued_at` and
  -- `requested_by`.
  unfoldable pub submission_of : Option ℕ → Option ℕ → Principal → Fresh → Submission
  submission_of command_id issued_at principal fresh = record {
    run_id = none;
    interval_index = none;
    command_id = or_default command_id fresh.command;
    correlation_id = fresh.correlation;
    requested_by = principal.subject;
    issued_at = or_default issued_at fresh.now;
    attempt_id = fresh.id;
    event_id = fresh.second_id;
    completed = fresh.completed;
  }

  -- The handler of `DispatchRejectedError` answers with the attempt.
  unfoldable pub dispatch_answer : Result DispatchError DispatchAttempt → Answer Body
  dispatch_answer (ok attempt) = answered 201 (attempt_body attempt)
  dispatch_answer (err (rejected attempt status_code)) = answered status_code (attempt_body attempt)
  dispatch_answer (err unknown_dispatch_run) = refused 404 "run_not_found"
  dispatch_answer (err _) = unhandled

module _ ⦃F : Floats⦄ {S : Type 0} (app : Application S) where
  open F use {Float}

  unfoldable pub list_demo_inputs : Service S → Answer Body × Service S
  list_demo_inputs s = (answered 200 (inputs_body (list_inputs app.entries)), s)

  unfoldable pub get_run : ℕ → Service S → Answer Body × Service S
  get_run run_id s = (answer_of 200 run_body (run_error_answer "") (get_row run_id s.runs).0, s)

  unfoldable pub get_run_result : ℕ → Service S → Answer Body × Service S
  get_run_result run_id s =
      (answer_of 200 run_body (run_error_answer "run_not_complete") (result run_id s.runs).0, s)

  unfoldable pub list_run_page : ℕ → ℕ → Service S → Answer Body × Service S
  list_run_page limit offset s = (answered 200 (runs_body (list_runs limit offset s.runs)), s)

  unfoldable pub read_approval : ℕ → Service S → Answer Body × Service S
  read_approval run_id s =
      (answer_of 200 approval_body approval_error_answer (get_approval run_id s.approvals).0, s)

  unfoldable pub get_timeline : ℕ → Service S → Answer Body × Service S
  get_timeline run_id s = (
    answer_of 200 timeline_body approval_error_answer (
        timeline s.runs run_id (map notice_columns s.notices) s.approvals
          (map simulation_columns s.simulations) (map attempt_columns s.evidence.attempts)),
    s,
  )

  unfoldable pub get_run_notice : ℕ → Service S → Answer Body × Service S
  get_run_notice run_id s = (
    elim (find_by_candidate run_id s.notices) [
      | none ↦ refused 404 "notice_not_found"
      | some notice ↦ answered 200 (notice_body notice)
    ],
    s,
  )

  -- `create_run`
  unfoldable pub post_run :
      RunCreateRequest → Option String → Fresh → Principal → Service S → Answer Body × Service S
  post_run request idempotency_key fresh principal s =
      elim (verify app.files app.entries request.input_reference request.input_sha256) [
        | err error ↦ (registry_answer error, s)
        | ok _ ↦
            let created =
              create app.fingerprint (λ runs. runs) request principal.subject idempotency_key
                fresh.id fresh.now s.runs in
            (
              answer_of 202 (λ r. run_body r.0) (run_error_answer "idempotency_conflict") created.0,
              record s { runs = created.1 },
            )
      ]

  -- The handlers around the request are those of `create_run`.
  unfoldable pub create_failure_drill :
      String
      → String
      → FailureDrill
      → Option String
      → Fresh
      → Principal
      → Service S
      → Answer Body × Service S
  create_failure_drill input_reference input_sha256 drill =
      post_run (drill_request input_reference input_sha256 drill)

  unfoldable pub post_approval :
      ℕ → ApprovalCreateRequest → Fresh → Principal → Service S → Answer Body × Service S
  post_approval run_id request fresh principal s =
      let created =
        create_approval (λ approvals. approvals) s.runs run_id request principal.subject fresh.id
          fresh.now s.approvals in
      (
        answer_of 201 approval_body approval_error_answer created.0,
        record s { approvals = created.1 },
      )

  unfoldable pub simulate_notice :
      NoticeCreateRequest → Option String → Fresh → Principal → Service S → Answer Body × Service S
  simulate_notice request idempotency_key fresh principal s =
      let call : NoticeCall = record {
        created_by = principal.subject;
        idempotency_key = idempotency_key;
        new_run_id = fresh.id;
        run_created_at = fresh.now;
        new_notice_id = fresh.second_id;
        notice_created_at = fresh.later;
      } in
      let created =
        create_simulated app.text_length app.fingerprint (λ runs. runs) (λ notices. notices) request
          call s.approvals s.runs s.notices in
      (
        answer_of 202 notice_body notice_error_answer created.0,
        record s { runs = created.1.0; notices = created.1.1 },
      )

  -- `cancel_run`
  unfoldable pub post_cancel : ℕ → Fresh → Service S → Answer Body × Service S
  post_cancel run_id fresh s =
      let cancelled = request_cancellation run_id fresh.now s.runs in
      (
        answer_of 200 run_body (run_error_answer "run_state_conflict") cancelled.0,
        record s { runs = cancelled.1 },
      )

  -- The state behind a call of the evidence repository.
  unfoldable pub with_evidence :
      Service S → Result DispatchError DispatchAttempt × (EvidenceLog × S) → Answer Body × Service S
  with_evidence s (outcome, (evidence, site)) =
      (dispatch_answer outcome, record s { evidence = evidence; site = site })

  unfoldable pub create_dispatch_simulation :
      ℕ
      → DispatchCreateRequest
      → Option String
      → Fresh
      → Principal
      → Service S
      → Answer Body × Service S
  create_dispatch_simulation run_id request control_key fresh principal s =
      elim (key_accepted app.texts.is_ascii control_key app.control_api_key) [
        | none ↦ (unhandled, s)
        | some accepted ↦
            let sub = submission_of request.command_id request.issued_at principal fresh in
            with_evidence s (
              dispatch_interval app.py (load_input app) app.is_sha256 app.control_gateway s.runs
                s.approvals sub (or_default request.expires_at (sub.issued_at + 20_000_000)) run_id
                request.interval_index
                (record { accepted = accepted; configured = is_configured app.control_api_key })
                (s.evidence, s.site))
      ]

  unfoldable pub activate_emergency_safe_state :
      String → Option String → Fresh → Principal → Service S → Answer Body × Service S
  activate_emergency_safe_state reason emergency_key fresh principal s =
      elim (key_accepted app.texts.is_ascii emergency_key app.emergency_api_key) [
        | none ↦ (unhandled, s)
        | some accepted ↦ with_evidence s (
            activate_safe_state app.control_gateway (submission_of none none principal fresh) reason
              (record { accepted = accepted; configured = is_configured app.emergency_api_key })
              (s.evidence, s.site))
      ]

  unfoldable pub create_control_simulation :
      ℕ → ℕ → Option String → Fresh → Principal → Service S → Answer Body × Service S
  create_control_simulation run_id interval_index control_key fresh principal s =
      elim (key_accepted app.texts.is_ascii control_key app.control_api_key) [
        | none ↦ (unhandled, s)
        | some _ ↦ elim (authenticate_control_key control_key app.control_api_key) [
          | err _ ↦ (control_key_answer app.control_api_key, s)
          | ok _ ↦
              let call : SimulationCall = record {
                interval_index = interval_index;
                requested_by = principal.subject;
                new_id = fresh.id;
                now = fresh.now;
              } in
              let created =
                create_simulation app.py (load_input app) (λ rows. rows) s.runs s.approvals run_id
                  call s.simulations in
              (
                answer_of 201 simulation_body simulation_error_answer created.0,
                record s { simulations = created.1 },
              )
        ]
      ]

-- The requests, with the parameters that FastAPI has validated.
pub data ApiRequest : Type 0 where
  list_inputs_request : ApiRequest
  run_request : RunCreateRequest → Option String → ApiRequest
  drill_run_request : String → String → FailureDrill → Option String → ApiRequest
  read_run_request read_result_request read_approval_request : ℕ → ApiRequest
  timeline_request run_notice_request : ℕ → ApiRequest
  run_page_request : ℕ → ℕ → ApiRequest
  approval_request : ℕ → ApprovalCreateRequest → ApiRequest
  notice_request : NoticeCreateRequest → Option String → ApiRequest
  dispatch_request : ℕ → DispatchCreateRequest → Option String → ApiRequest
  safe_state_request : String → Option String → ApiRequest
  simulation_request : ℕ → ℕ → Option String → ApiRequest
  cancel_request : ℕ → ApiRequest
  notice_page_request event_page_request : ℕ → ℕ → ApiRequest
  read_notice_request : ℕ → ApiRequest
  attempt_page_request : ℕ → Option String → ℕ → ℕ → ApiRequest
  run_simulations_request : ℕ → Option String → ApiRequest
  status_request : Option String → ApiRequest

module _ ⦃F : Floats⦄ {S : Type 0} (app : Application S) where
  -- The route of each request, with its dependency.
  unfoldable pub serve : Headers → ApiRequest → Fresh → Service S → Answer Body × Service S
  serve h list_inputs_request fresh = with_principal app h (λ _. list_demo_inputs app)
  serve h (run_request request key) fresh =
      with_roles app h (operator ∷ admin ∷ []) (post_run app request key fresh)
  serve h (drill_run_request reference sha256 drill key) fresh =
      with_roles app h (operator ∷ admin ∷ [])
        (create_failure_drill app reference sha256 drill key fresh)
  serve h (read_run_request run_id) fresh = with_principal app h (λ _. get_run app run_id)
  serve h (read_result_request run_id) fresh = with_principal app h (λ _. get_run_result app run_id)
  serve h (read_approval_request run_id) fresh =
      with_principal app h (λ _. read_approval app run_id)
  serve h (timeline_request run_id) fresh = with_principal app h (λ _. get_timeline app run_id)
  serve h (run_notice_request run_id) fresh = with_principal app h (λ _. get_run_notice app run_id)
  serve h (run_page_request limit offset) fresh =
      with_principal app h (λ _. list_run_page app limit offset)
  serve h (approval_request run_id request) fresh =
      with_roles app h (approver ∷ admin ∷ []) (post_approval app run_id request fresh)
  serve h (notice_request request key) fresh =
      with_roles app h (operator ∷ admin ∷ []) (simulate_notice app request key fresh)
  serve h (dispatch_request run_id request key) fresh =
      with_roles app h (operator ∷ admin ∷ [])
        (create_dispatch_simulation app run_id request key fresh)
  serve h (safe_state_request reason key) fresh =
      with_roles app h (admin ∷ []) (activate_emergency_safe_state app reason key fresh)
  serve h (simulation_request run_id interval_index key) fresh =
      with_roles app h (operator ∷ admin ∷ [])
        (create_control_simulation app run_id interval_index key fresh)
  serve h (cancel_request run_id) fresh =
      with_roles app h (operator ∷ admin ∷ []) (λ _. post_cancel app run_id fresh)
  serve h (notice_page_request limit offset) fresh =
      with_principal app h (λ _. list_notices app limit offset)
  serve h (event_page_request limit offset) fresh =
      with_principal app h (λ _. list_security_events app limit offset)
  serve h (read_notice_request notice_id) fresh =
      with_principal app h (λ _. get_notice app notice_id)
  serve h (attempt_page_request run_id key limit offset) fresh =
      with_principal app h (λ _. list_dispatch_simulations app run_id key limit offset)
  serve h (run_simulations_request run_id key) fresh =
      with_principal app h (λ _. list_control_simulations app run_id key)
  serve h (status_request key) fresh = with_principal app h (λ _. read_controller_status app key)

  -- One request after the other.
  unfoldable pub serve_all : List (Headers × ApiRequest × Fresh) → Service S → Service S
  serve_all [] s = s
  serve_all ((h, request, fresh) ∷ rest) s = serve_all rest (serve h request fresh s).1
