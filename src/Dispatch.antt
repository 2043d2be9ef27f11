-- ===== src/Dispatch.antt =====
-- `DispatchEvidenceRepository` of aggregator_demo/dispatch_repository.py. The gateway and the input
-- registry are interfaces; a run and its approval are read from the tables of Runs and Approvals.
pub mod Evidence
pub mod Gate
pub mod Audit
pub mod Checks
pub mod Gated
pub mod Clearance
mod Tests
use text.Mathlib.Text.{◌==◌ as str_eq}
use depotflux_demo.Prelude.{
  ℕ, ◌+◌, Bool, true, false, not, ◌&&◌, ◌||◌, Option, none, some, List, [], ◌∷◌, ◌++◌, String, leb,
  ◌==◌, if◌then◌else◌, Result, ok, err,
}
use depotflux_demo.Prelude.Int.{ℤ}
use depotflux_demo.Floats.{Floats, float_zero}
use depotflux_demo.Runs.Status.{succeeded, is}
use depotflux_demo.Runs.Json.{Json, Items, Fields, get}
use depotflux_demo.Runs.Row.{RunRow, Runs, find}
use depotflux_demo.Runs.Create.{given}
use depotflux_demo.Approvals.{ApprovalRow, Approvals, approved, is_decision, find_approval}
use depotflux_demo.Approvals.Timeline.{refused, failed}
use depotflux_demo.Gateway.{DispatchRequest, SafeStateRequest, ControllerResponse}
use depotflux_demo.Gateway.HttpClient.{
  ClientError, client_policy, client_unavailable, unavailable_policy, authentication_failed,
  gateway_unavailable, no_json,
}
use depotflux_demo.Schedule.{
  Conversions, items_length, result_of, as_list, validation_passed, minutes_of, capacity_of,
  net_energy, average_power,
}
use depotflux_demo.Dispatch.Evidence.{
  CheckCode, separate_control_credential, successful_candidate, immutable_operator_approval,
  approval_result_hash, deterministic_validation, interval_in_horizon, site_capacity_envelope,
  separate_emergency_credential, Check, ReasonCode, dispatch_disabled, safe_state_disabled,
  invalid_credential, ot_gateway_disabled, check_failed, gateway_code, dispatch_applied,
  emergency_activated, DispatchAction, dispatch_schedule, emergency_stop, approved_dispatch_applied,
  safe_state_activated, info, high, DispatchAttempt, EvidenceLog, Submission, DispatchError,
  unknown_run, input_error, uncaught, rejected_attempt, accepted_attempt, persist, reject,
  for_interval,
}
use depotflux_demo.Dispatch.Gate.{
  SupervisoryGateway, Credential, DispatchMethod, Step, require, reject_common, reject_credential,
  transmit,
}

-- `approval is not None and approval.decision == …APPROVED`
unfoldable pub is_approved : Option ApprovalRow → Bool
is_approved none = false
is_approved (some approval) = is_decision approval.decision approved

module _ ⦃F : Floats⦄ where
  open F use {Float}

  -- `bool(run.result_sha256 and approval and approval.result_sha256 == run.result_sha256)`
  unfoldable pub is_bound : RunRow Float → Option ApprovalRow → Bool
  is_bound run none = false
  is_bound run (some approval) = elim (given run.result_sha256) [
    | none ↦ false
    | some sha256 ↦ str_eq approval.result_sha256 sha256
  ]

  -- The two series, where they are lists of one length that the interval is not behind.
  unfoldable pub approved_series :
      ℕ → Option (Items Float) → Option (Items Float) → Option (Items Float × Items Float)
  approved_series interval_index (some buy) (some sell) =
      if items_length buy == items_length sell && leb interval_index (items_length buy)
      then some (buy, sell)
      else none
  approved_series interval_index _ _ = none

  -- The derived setpoint and the capacity of the site.
  unfoldable pub site_setpoint :
      Conversions → ℕ → Items Float → Items Float → Fields Float → Option (Float × Float)
  site_setpoint py interval_index buy sell input =
      elim (minutes_of py (get "timestep_minutes" input)) [
        | none ↦ none
        | some minutes ↦ elim (capacity_of py (get "chargers" input)) [
          | none ↦ none
          | some capacity_kw ↦ elim (net_energy py interval_index buy sell) [
            | none ↦ none
            | some net ↦ elim (average_power net minutes) [
              | none ↦ none
              | some setpoint_kw ↦ some (setpoint_kw, capacity_kw)
            ]
          ]
        ]
      ]

module _ ⦃F : Floats⦄ {S : Type 0} where
  open F use {Float, add, abs, le, is_finite, tolerance}

  -- The envelope, and what is behind it.
  unfoldable pub check_envelope :
      Option (SupervisoryGateway S)
      → (String → Bool)
      → Submission
      → ℕ
      → RunRow Float
      → Float
      → Float
      → Step S
  check_envelope gateway is_sha256 sub expires run setpoint_kw capacity_kw =
      require (is_finite setpoint_kw && le (abs setpoint_kw) (add capacity_kw tolerance))
        site_capacity_envelope
        (reject_common sub site_capacity_envelope run.result_sha256 (some setpoint_kw))
        (transmit gateway is_sha256 sub expires run.result_sha256 setpoint_kw capacity_kw)

  module _ (py : Conversions) (load : String → String → Option (Fields Float))
      (is_sha256 : String → Bool) (gateway : Option (SupervisoryGateway S)) where
    -- Behind the horizon: the input of the run, and the setpoint.
    unfoldable pub derive_setpoint :
        Submission → ℕ → ℕ → RunRow Float → Items Float → Items Float → Step S
    derive_setpoint sub expires interval_index run buy sell checks s =
        elim (load run.request.input_reference run.request.input_sha256) [
          | none ↦ (err input_error, s)
          | some input ↦ elim (site_setpoint py interval_index buy sell input) [
            | none ↦ (err uncaught, s)
            | some (setpoint_kw, capacity_kw) ↦
                check_envelope gateway is_sha256 sub expires run setpoint_kw capacity_kw checks s
          ]
        ]

    unfoldable pub check_horizon : Submission → ℕ → ℕ → RunRow Float → Step S
    check_horizon sub expires interval_index run checks s =
        let rejection = reject_common sub interval_in_horizon run.result_sha256 none in
        elim (approved_series interval_index (as_list (get "w_buy" (result_of run)))
          (as_list (get "w_sell" (result_of run)))) [
            | none ↦ require false interval_in_horizon rejection rejection checks s
            | some (buy, sell) ↦
                require true interval_in_horizon rejection
                  (derive_setpoint sub expires interval_index run buy sell) checks s
          ]

    unfoldable pub check_validation : Submission → ℕ → ℕ → RunRow Float → Step S
    check_validation sub expires interval_index run checks s =
        elim (validation_passed (get "validation" (result_of run))) [
          | none ↦ (err uncaught, s)
          | some passed ↦
              require passed deterministic_validation
                (reject_common sub deterministic_validation run.result_sha256 none)
                (check_horizon sub expires interval_index run) checks s
        ]

    -- The checks on the run and its approval.
    unfoldable pub check_run :
        Submission → ℕ → ℕ → Credential → RunRow Float → Option ApprovalRow → DispatchMethod S
    check_run sub expires interval_index credential run approval =
        require (credential.configured && credential.accepted) separate_control_credential
          (reject_credential sub credential run.result_sha256)
          (require (is run.status succeeded) successful_candidate
            (reject_common sub successful_candidate run.result_sha256 none)
            (require (is_approved approval) immutable_operator_approval
              (reject_common sub immutable_operator_approval run.result_sha256 none)
              (require (is_bound run approval) approval_result_hash
                (reject_common sub approval_result_hash run.result_sha256 none)
                (check_validation sub expires interval_index run))))
          []

    -- The body of `dispatch`, with the rows that it writes named by `sub`.
    unfoldable pub dispatch_submission :
        Runs Float → Approvals → Submission → ℕ → ℕ → ℕ → Credential → DispatchMethod S
    dispatch_submission runs approvals sub expires run_id interval_index credential s =
        elim (find run_id runs) [
          | none ↦ (err unknown_run, s)
          | some run ↦
              check_run sub expires interval_index credential run (find_approval run_id approvals) s
        ]

    -- `dispatch`; the times and the new identifiers of the call stand in `sub` and `expires`
    unfoldable pub dispatch_interval :
        Runs Float → Approvals → Submission → ℕ → ℕ → ℕ → Credential → DispatchMethod S
    dispatch_interval runs approvals sub expires run_id interval_index credential =
        dispatch_submission runs approvals (for_interval run_id interval_index sub) expires run_id
          interval_index credential
