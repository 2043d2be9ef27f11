-- ===== src/Dispatch/Gate.antt =====
-- The steps of `DispatchEvidenceRepository` in aggregator_demo/dispatch_repository.py: `_require`, the
-- rejections, the call of the gateway, and `safe_state`. The gateway is an interface.
use depotflux_demo.Prelude.{
  ℕ, ◌+◌, Bool, true, false, not, ◌&&◌, ◌||◌, Option, none, some, List, [], ◌∷◌, ◌++◌, String,
  if◌then◌else◌, Result, ok, err,
}
use depotflux_demo.Floats.{Floats, float_zero}
use depotflux_demo.Approvals.Timeline.{accepted, refused, failed}
use depotflux_demo.Gateway.{DispatchRequest, SafeStateRequest, ControllerResponse, StatusResponse}
use depotflux_demo.Gateway.HttpClient.{
  ClientError, client_policy, client_unavailable, unavailable_policy, authentication_failed,
  gateway_unavailable, no_json,
}
use depotflux_demo.Dispatch.Evidence.{
  CheckCode, separate_emergency_credential, Check, dispatch_disabled, safe_state_disabled,
  invalid_credential, ot_gateway_disabled, check_failed, gateway_code, dispatch_applied,
  emergency_activated, DispatchAction, dispatch_schedule, emergency_stop, approved_dispatch_applied,
  safe_state_activated, info, high, DispatchAttempt, EvidenceLog, Submission, DispatchError,
  uncaught, rejected_attempt, accepted_attempt, persist, reject, for_site,
}

-- `self.gateway`, on the state behind it.
pub record SupervisoryGateway ⦃F : Floats⦄ (S : Type 0) : Type 0 where
  pub dispatch : DispatchRequest → S → Result ClientError ControllerResponse × S
  pub safe_state : SafeStateRequest → S → Result ClientError ControllerResponse × S
  pub controller_status : S → Result ClientError StatusResponse × S

-- The arguments of `dispatch` and `safe_state` on the credential.
pub record Credential : Type 0 where
  pub accepted : Bool
  pub configured : Bool

-- How a caught exception of the gateway is handled: `except GatewayPolicyError`,
-- `except GatewayUnavailableError`, or not at all.
pub data Caught : Type 0 where
  as_policy as_unavailable not_caught : Caught

abbrev pub caught : ClientError → Caught
caught (client_policy _) = as_policy
caught (client_unavailable _) = as_unavailable
caught (unavailable_policy _) = as_unavailable
caught authentication_failed = as_unavailable
caught gateway_unavailable = as_unavailable
caught no_json = not_caught

-- A method, on the evidence and the state behind the gateway, and a step of one behind some checks.
abbrev pub DispatchMethod : ⦃F : Floats⦄ → Type 0 → Type 0
DispatchMethod S = EvidenceLog × S → Result DispatchError DispatchAttempt × (EvidenceLog × S)

abbrev pub Step : ⦃F : Floats⦄ → Type 0 → Type 0
Step S = List Check → DispatchMethod S

module _ ⦃F : Floats⦄ where
  open F use {Float}

  -- The request that `dispatch` builds.
  unfoldable pub gateway_command : Submission → ℕ → String → Float → Float → DispatchRequest
  gateway_command sub expires sha256 setpoint_kw capacity_kw = record {
    command_id = sub.command_id;
    correlation_id = sub.correlation_id;
    issued_at = sub.issued_at;
    expires_at = expires;
    setpoint_kw = setpoint_kw;
    site_capacity_kw = capacity_kw;
    result_sha256 = sha256;
  }

module _ ⦃F : Floats⦄ {S : Type 0} where
  open F use {Float, lt}

  -- `_require`
  unfoldable pub require : Bool → CheckCode → Step S → Step S → Step S
  require condition code rejection next checks s =
      let checks' = checks ++ record { code = code; passed = condition } ∷ [] in
      elim condition [ true ↦ next checks' s | false ↦ rejection checks' s ]

  -- `_reject_common`
  unfoldable pub reject_common : Submission → CheckCode → Option String → Option Float → Step S
  reject_common sub code result_sha256 setpoint_kw checks =
      reject sub.event_id
        (rejected_attempt sub dispatch_schedule refused (check_failed code) setpoint_kw
          result_sha256 checks)
        409

  -- The credential: `_reject` with a code of its own.
  unfoldable pub reject_credential : Submission → Credential → Option String → Step S
  reject_credential sub credential result_sha256 checks =
      reject sub.event_id
        (rejected_attempt sub dispatch_schedule refused
          (if not credential.configured then dispatch_disabled else invalid_credential) none
          result_sha256 checks)
        (if not credential.configured then 503 else 401)

  -- The handlers of the exceptions of the gateway, which are the same in both methods.
  unfoldable pub settle_error :
      Submission
      → DispatchAction
      → Option Float
      → Option String
      → List Check
      → ClientError
      → DispatchMethod S
  settle_error sub action setpoint_kw result_sha256 checks error s = elim (caught error) [
    | as_policy ↦
        reject sub.event_id
          (rejected_attempt sub action refused (gateway_code error) setpoint_kw result_sha256
            checks)
          409 s
    | as_unavailable ↦
        reject sub.event_id
          (rejected_attempt sub action failed (gateway_code error) setpoint_kw result_sha256 checks)
          503 s
    | not_caught ↦ (err uncaught, s)
  ]

  -- What `dispatch` and `safe_state` do with the answer of the gateway.
  unfoldable pub settle_dispatch :
      Submission
      → Float
      → String
      → List Check
      → EvidenceLog
      → Result ClientError ControllerResponse × S
      → Result DispatchError DispatchAttempt × (EvidenceLog × S)
  settle_dispatch sub setpoint_kw sha256 checks e (ok controller, s) =
      let attempt =
        accepted_attempt sub dispatch_schedule dispatch_applied setpoint_kw (some sha256) checks
          controller in
      (ok attempt, (persist sub.event_id approved_dispatch_applied info accepted attempt e, s))
  settle_dispatch sub setpoint_kw sha256 checks e (err error, s) =
      settle_error sub dispatch_schedule (some setpoint_kw) (some sha256) checks error (e, s)

  unfoldable pub settle_safe_state :
      Submission
      → List Check
      → EvidenceLog
      → Result ClientError ControllerResponse × S
      → Result DispatchError DispatchAttempt × (EvidenceLog × S)
  settle_safe_state sub checks e (ok controller, s) =
      let attempt =
        accepted_attempt sub emergency_stop emergency_activated float_zero none checks controller in
      (ok attempt, (persist sub.event_id safe_state_activated high accepted attempt e, s))
  settle_safe_state sub checks e (err error, s) =
      settle_error sub emergency_stop none none checks error (e, s)

  -- The call of the gateway, behind all checks. The request is valid if its capacity is above zero
  -- and its hash is one; the exception of any other is not caught.
  unfoldable pub transmit :
      Option (SupervisoryGateway S)
      → (String → Bool)
      → Submission
      → ℕ
      → Option String
      → Float
      → Float
      → Step S
  transmit none is_sha256 sub expires result_sha256 setpoint_kw capacity_kw checks s =
      reject sub.event_id
        (rejected_attempt sub dispatch_schedule failed ot_gateway_disabled (some setpoint_kw)
          result_sha256 checks)
        503 s
  transmit (some gateway) is_sha256 sub expires none setpoint_kw capacity_kw checks s =
      (err uncaught, s)
  transmit (some gateway) is_sha256 sub expires (some sha256) setpoint_kw capacity_kw checks
        (e, s) =
      if not (lt float_zero capacity_kw) || not (is_sha256 sha256)
      then (err uncaught, (e, s))
      else settle_dispatch sub setpoint_kw sha256 checks e
          (gateway.dispatch (gateway_command sub expires sha256 setpoint_kw capacity_kw) s)

  -- `safe_state` behind its check
  unfoldable pub transmit_safe_state : Option (SupervisoryGateway S) → Submission → String → Step S
  transmit_safe_state none sub reason checks s =
      reject sub.event_id
        (rejected_attempt sub emergency_stop failed ot_gateway_disabled none none checks) 503 s
  transmit_safe_state (some gateway) sub reason checks (e, s) = settle_safe_state sub checks e (
      gateway.safe_state
        (record {
          command_id = sub.command_id;
          correlation_id = sub.correlation_id;
          issued_at = sub.issued_at;
          expires_at = sub.issued_at + 20_000_000;
          reason = reason;
        })
        s)

  -- The body of `safe_state`, with the rows that it writes named by `sub`.
  unfoldable pub safe_state_submission :
      Option (SupervisoryGateway S) → Submission → String → Credential → DispatchMethod S
  safe_state_submission gateway sub reason credential s =
      let passed = credential.configured && credential.accepted in
      let checks = record { code = separate_emergency_credential; passed = passed } ∷ [] in
      if not credential.configured || not credential.accepted
      then reject sub.event_id
          (rejected_attempt sub emergency_stop refused
            (if not credential.configured then safe_state_disabled else invalid_credential) none
            none checks)
          (if not credential.configured then 503 else 401) s
      else transmit_safe_state gateway sub reason checks s

  -- `safe_state`
  unfoldable pub activate_safe_state :
      Option (SupervisoryGateway S) → Submission → String → Credential → DispatchMethod S
  activate_safe_state gateway sub reason credential =
      safe_state_submission gateway (for_site sub) reason credential
