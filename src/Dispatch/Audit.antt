-- ===== src/Dispatch/Audit.antt =====
-- Every decision leaves one attempt and one event that describes it.
use depotflux_demo.Prelude.{
  sym, ℕ, ◌≡◌, ◌≢◌, refl, Bool, true, false, Option, none, some, List, [], ◌∷◌, ◌++◌, String,
  Result, ok, err, if◌then◌else◌, Option-cases, inl, inr, ◌||◌, not,
}
use depotflux_demo.Floats.{Floats, float_zero}
use depotflux_demo.Runs.Json.{Fields, Items, get}
use depotflux_demo.Runs.Row.{RunRow, Runs, find}
use depotflux_demo.Approvals.{Approvals}
use depotflux_demo.Approvals.Timeline.{DispatchDecision, accepted, refused, failed}
use depotflux_demo.Gateway.{ControllerResponse}
use depotflux_demo.Gateway.HttpClient.{ClientError}
use depotflux_demo.Schedule.{Conversions, result_of, as_list, validation_passed}
use depotflux_demo.Dispatch.Evidence.{
  Check, CheckCode, DispatchAttempt, SecurityEvent, EvidenceLog, EventName, Severity, Submission,
  DispatchError, unknown_run, input_error, uncaught, rejected, gateway_code, DispatchAction,
  rejected_attempt, accepted_attempt, event_of_attempt, persist, reject, for_interval, for_site,
}
use depotflux_demo.Dispatch.Gate.{
  SupervisoryGateway, Credential, Step, require, reject_common, reject_credential, settle_error,
  settle_dispatch, settle_safe_state, transmit, transmit_safe_state, safe_state_submission,
  activate_safe_state, caught, as_policy, as_unavailable, not_caught,
}
use depotflux_demo.Dispatch.{
  check_envelope, approved_series, site_setpoint, derive_setpoint, check_horizon, check_validation,
  check_run, dispatch_submission, dispatch_interval,
}

module _ ⦃F : Floats⦄ where
  -- The event tells of the attempt.
  pub record Describes (event : SecurityEvent) (attempt : DispatchAttempt) : Type 0 where
    pub same_attempt : event.attempt_id ≡ attempt.id
    pub same_command : event.command_id ≡ attempt.command_id
    pub same_correlation : event.correlation_id ≡ attempt.correlation_id
    pub same_run : event.run_id ≡ attempt.run_id
    pub same_actor : event.actor ≡ attempt.requested_by
    pub same_outcome : event.outcome ≡ attempt.decision
    pub same_reason : event.reason_code ≡ attempt.reason_code
    pub same_setpoint : event.setpoint_kw ≡ attempt.setpoint_kw

  -- The logs grew by the attempt and one event that tells of it.
  abbrev pub Added : DispatchAttempt → EvidenceLog → EvidenceLog → Type 0
  Added attempt e e' =
      (event : SecurityEvent) × (e'.attempts ≡ e.attempts ++ attempt ∷ [])
      × (e'.events ≡ e.events ++ event ∷ [])
      × Describes event attempt

  -- What an outcome leaves in the logs.
  abbrev pub Leaves : EvidenceLog → Result DispatchError DispatchAttempt → EvidenceLog → Type 0
  Leaves e (ok attempt) e' = (attempt.decision ≡ accepted) × Added attempt e e'
  Leaves e (err (rejected attempt _)) e' = (attempt.decision ≢ accepted) × Added attempt e e'
  Leaves e (err _) e' = e' ≡ e

  persist-Added :
      (event_id : ℕ) (event_type : EventName) (severity : Severity) (outcome : DispatchDecision)
      (attempt : DispatchAttempt) (e : EvidenceLog)
      → outcome ≡ attempt.decision
      → Added attempt e (persist event_id event_type severity outcome attempt e)
  unfolding persist event_of_attempt
  persist-Added event_id event_type severity outcome attempt e same = (
    event_of_attempt event_id event_type severity outcome attempt,
    refl,
    refl,
    record {
      same_attempt = refl;
      same_command = refl;
      same_correlation = refl;
      same_run = refl;
      same_actor = refl;
      same_outcome = same;
      same_reason = refl;
      same_setpoint = refl;
    },
  )

module _ ⦃F : Floats⦄ {S : Type 0} where
  pub record Recorded (e : EvidenceLog)
      (outcome : Result DispatchError DispatchAttempt × (EvidenceLog × S)) : Type 0 where
    pub leaves : Leaves e outcome.0 outcome.1.0

  reject-Recorded :
      (event_id : ℕ) (attempt : DispatchAttempt) (status_code : ℕ) (e : EvidenceLog) (s : S)
      → attempt.decision ≢ accepted
      → Recorded e (reject event_id attempt status_code (e, s))
  unfolding reject
  reject-Recorded event_id attempt status_code e s h = record {
    leaves = (h, persist-Added event_id _ _ attempt.decision attempt e refl);
  }

  require-Recorded :
      (condition : Bool) (code : CheckCode) (rejection next : Step S) (checks : List Check)
      (e : EvidenceLog) (s : S)
      → ((checks : List Check) → Recorded e (rejection checks (e, s)))
      → ((checks : List Check) → Recorded e (next checks (e, s)))
      → Recorded e (require condition code rejection next checks (e, s))
  unfolding require
  require-Recorded true code rejection next checks e s hr hn = hn _
  require-Recorded false code rejection next checks e s hr hn = hr _

  if-Recorded :
      (e : EvidenceLog) (b : Bool) (x y : Result DispatchError DispatchAttempt × (EvidenceLog × S))
      → Recorded e x
      → Recorded e y
      → Recorded e (if b then x else y)
  if-Recorded e true x y hx hy = hx
  if-Recorded e false x y hx hy = hy

  unchanged-Recorded :
      (e : EvidenceLog) (s : S) (error : DispatchError)
      → Leaves e (err error) e
      → Recorded e (err error, (e, s))
  unchanged-Recorded e s error h = record { leaves = h }

  reject_common-Recorded :
      (sub : Submission) (code : CheckCode) (sha256 : Option String) (setpoint_kw : Option F.Float)
      (checks : List Check) (e : EvidenceLog) (s : S)
      → Recorded e (reject_common sub code sha256 setpoint_kw checks (e, s))
  unfolding reject_common rejected_attempt
  reject_common-Recorded sub code sha256 setpoint_kw checks e s =
      reject-Recorded _ _ _ e s (λ h. cc h)

  reject_credential-Recorded :
      (sub : Submission) (credential : Credential) (sha256 : Option String) (checks : List Check)
      (e : EvidenceLog) (s : S)
      → Recorded e (reject_credential sub credential sha256 checks (e, s))
  unfolding reject_credential rejected_attempt
  reject_credential-Recorded sub credential sha256 checks e s =
      reject-Recorded _ _ _ e s (λ h. cc h)

  accepted-Recorded :
      (sub : Submission) (event_type : EventName) (severity : Severity) (attempt : DispatchAttempt)
      (e : EvidenceLog) (s : S)
      → attempt.decision ≡ accepted
      → Recorded e (ok attempt, (persist sub.event_id event_type severity accepted attempt e, s))
  accepted-Recorded sub event_type severity attempt e s h = record {
    leaves = (h, persist-Added sub.event_id event_type severity accepted attempt e (sym h));
  }

  settle_error-Recorded :
      (sub : Submission) (action : DispatchAction) (setpoint_kw : Option F.Float)
      (sha256 : Option String) (checks : List Check) (error : ClientError) (e : EvidenceLog) (s : S)
      → Recorded e (settle_error sub action setpoint_kw sha256 checks error (e, s))
  unfolding settle_error rejected_attempt
  settle_error-Recorded sub action setpoint_kw sha256 checks error e s =
      elim (caught error)
        as (λ c. Recorded e (elim c [
          | as_policy ↦
              reject sub.event_id
                (rejected_attempt sub action refused (gateway_code error) setpoint_kw sha256 checks)
                409 (e, s)
          | as_unavailable ↦
              reject sub.event_id
                (rejected_attempt sub action failed (gateway_code error) setpoint_kw sha256 checks)
                503 (e, s)
          | not_caught ↦ (err uncaught, (e, s))
        ])) [
          | as_policy ↦ reject-Recorded _ _ _ e s (λ h. cc h)
          | as_unavailable ↦ reject-Recorded _ _ _ e s (λ h. cc h)
          | not_caught ↦ unchanged-Recorded e s uncaught refl
        ]

  settle_dispatch-Recorded :
      (sub : Submission) (setpoint_kw : F.Float) (sha256 : String) (checks : List Check)
      (e : EvidenceLog) (answer : Result ClientError ControllerResponse × S)
      → Recorded e (settle_dispatch sub setpoint_kw sha256 checks e answer)
  unfolding settle_dispatch accepted_attempt
  settle_dispatch-Recorded sub setpoint_kw sha256 checks e (ok controller, s) =
      accepted-Recorded sub _ _ _ e s refl
  settle_dispatch-Recorded sub setpoint_kw sha256 checks e (err error, s) =
      settle_error-Recorded sub _ _ _ checks error e s

  settle_safe_state-Recorded :
      (sub : Submission) (checks : List Check) (e : EvidenceLog)
      (answer : Result ClientError ControllerResponse × S)
      → Recorded e (settle_safe_state sub checks e answer)
  unfolding settle_safe_state accepted_attempt
  settle_safe_state-Recorded sub checks e (ok controller, s) = accepted-Recorded sub _ _ _ e s refl
  settle_safe_state-Recorded sub checks e (err error, s) =
      settle_error-Recorded sub _ _ _ checks error e s

  transmit-Recorded :
      (gateway : Option (SupervisoryGateway S)) (is_sha256 : String → Bool) (sub : Submission)
      (expires : ℕ) (sha256 : Option String) (setpoint_kw capacity_kw : F.Float)
      (checks : List Check) (e : EvidenceLog) (s : S)
      → Recorded e
          (transmit gateway is_sha256 sub expires sha256 setpoint_kw capacity_kw checks (e, s))
  unfolding transmit rejected_attempt
  transmit-Recorded none is_sha256 sub expires sha256 setpoint_kw capacity_kw checks e s =
      reject-Recorded _ _ _ e s (λ h. cc h)
  transmit-Recorded (some gateway) is_sha256 sub expires none setpoint_kw capacity_kw checks e s =
      unchanged-Recorded e s uncaught refl
  transmit-Recorded (some gateway) is_sha256 sub expires (some sha256) setpoint_kw capacity_kw
        checks e s =
      if-Recorded e (not (F.lt float_zero capacity_kw) || not (is_sha256 sha256)) _ _
        (unchanged-Recorded e s uncaught refl)
        (settle_dispatch-Recorded sub setpoint_kw sha256 checks e _)

  safe_state_submission-Recorded :
      (gateway : Option (SupervisoryGateway S)) (sub : Submission) (reason : String)
      (credential : Credential) (e : EvidenceLog) (s : S)
      → Recorded e (safe_state_submission gateway sub reason credential (e, s))
  unfolding safe_state_submission transmit_safe_state rejected_attempt
  safe_state_submission-Recorded none sub reason credential e s =
      if-Recorded e (not credential.configured || not credential.accepted) _ _
        (reject-Recorded _ _ _ e s (λ h. cc h)) (reject-Recorded _ _ _ e s (λ h. cc h))
  safe_state_submission-Recorded (some gateway) sub reason credential e s =
      if-Recorded e (not credential.configured || not credential.accepted) _ _
        (reject-Recorded _ _ _ e s (λ h. cc h)) (settle_safe_state-Recorded sub _ e _)

  -- A safe-state call that returns leaves one accepted attempt in the table and one security
  -- event beside it with the command, correlation, run, actor, outcome, reason and setpoint of
  -- the attempt; one that is rejected or fails leaves an attempt that is not accepted and its
  -- event; any other exception leaves both tables as they are.
  pub activate_safe_state-Recorded :
      (gateway : Option (SupervisoryGateway S)) (sub : Submission) (reason : String)
      (credential : Credential) (e : EvidenceLog) (s : S)
      → Recorded e (activate_safe_state gateway sub reason credential (e, s))
  unfolding activate_safe_state
  activate_safe_state-Recorded gateway sub reason credential e s =
      safe_state_submission-Recorded gateway (for_site sub) reason credential e s

  module _ (py : Conversions) (load : String → String → Option (Fields F.Float))
      (is_sha256 : String → Bool) (gateway : Option (SupervisoryGateway S)) (sub : Submission)
      (expires interval_index : ℕ) where
    derive_setpoint-Recorded :
        (run : RunRow F.Float) (buy sell : Items F.Float) (checks : List Check) (e : EvidenceLog)
        (s : S)
        → Recorded e (
            derive_setpoint py load is_sha256 gateway sub expires interval_index run buy sell checks
              (e, s))
    unfolding derive_setpoint check_envelope
    derive_setpoint-Recorded run buy sell checks e s =
        elim (Option-cases (load run.request.input_reference run.request.input_sha256)) [
          | inl missing ↦ rw (missing, derive_setpoint) (unchanged-Recorded e s input_error refl)
          | inr (input, loaded) ↦
              elim (Option-cases (site_setpoint py interval_index buy sell input)) [
                | inl none_derived ↦
                    rw (loaded, derive_setpoint)
                      (rw none_derived (unchanged-Recorded e s uncaught refl))
                | inr ((setpoint_kw, capacity_kw), derived) ↦
                    rw (loaded, derive_setpoint)
                      (rw derived (
                        require-Recorded _ _ _ _ checks e s
                          (λ c. reject_common-Recorded sub _ _ _ c e s)
                          (λ c.
                            transmit-Recorded gateway is_sha256 sub expires run.result_sha256
                              setpoint_kw capacity_kw c e s)))
              ]
        ]

    check_horizon-Recorded :
        (run : RunRow F.Float) (checks : List Check) (e : EvidenceLog) (s : S)
        → Recorded e
            (check_horizon py load is_sha256 gateway sub expires interval_index run checks (e, s))
    unfolding check_horizon
    check_horizon-Recorded run checks e s =
        elim (Option-cases (
          approved_series interval_index (as_list (get "w_buy" (result_of run)))
            (as_list (get "w_sell" (result_of run))))) [
              | inl outside ↦
                  rw (outside, check_horizon)
                    (require-Recorded _ _ _ _ checks e s
                      (λ c. reject_common-Recorded sub _ _ _ c e s)
                      (λ c. reject_common-Recorded sub _ _ _ c e s))
              | inr ((buy, sell), inside) ↦
                  rw (inside, check_horizon)
                    (require-Recorded _ _ _ _ checks e s
                      (λ c. reject_common-Recorded sub _ _ _ c e s)
                      (λ c. derive_setpoint-Recorded run buy sell c e s))
            ]

    check_validation-Recorded :
        (run : RunRow F.Float) (checks : List Check) (e : EvidenceLog) (s : S)
        → Recorded e (
            check_validation py load is_sha256 gateway sub expires interval_index run checks (e, s))
    unfolding check_validation
    check_validation-Recorded run checks e s =
        elim (Option-cases (validation_passed (get "validation" (result_of run)))) [
          | inl broken ↦ rw (broken, check_validation) (unchanged-Recorded e s uncaught refl)
          | inr (passed, found) ↦
              rw (found, check_validation)
                (require-Recorded _ _ _ _ checks e s (λ c. reject_common-Recorded sub _ _ _ c e s)
                  (λ c. check_horizon-Recorded run c e s))
        ]

    dispatch_submission-Recorded :
        (runs : Runs F.Float) (approvals : Approvals) (run_id : ℕ) (credential : Credential)
        (e : EvidenceLog) (s : S)
        → Recorded e (
            dispatch_submission py load is_sha256 gateway runs approvals sub expires run_id
              interval_index credential
              (e, s))
    unfolding dispatch_submission check_run
    dispatch_submission-Recorded runs approvals run_id credential e s =
        elim (Option-cases (find run_id runs)) [
          | inl missing ↦
              rw (missing, dispatch_submission) (unchanged-Recorded e s unknown_run refl)
          | inr (run, found) ↦
              rw (found, dispatch_submission)
                (require-Recorded _ _ _ _ [] e s
                  (λ c. reject_credential-Recorded sub credential _ c e s)
                  (λ c.
                    require-Recorded _ _ _ _ c e s (λ c. reject_common-Recorded sub _ _ _ c e s)
                      (λ c.
                        require-Recorded _ _ _ _ c e s (λ c. reject_common-Recorded sub _ _ _ c e s)
                          (λ c.
                            require-Recorded _ _ _ _ c e s
                              (λ c. reject_common-Recorded sub _ _ _ c e s)
                              (λ c. check_validation-Recorded run c e s)))))
        ]

  -- A dispatch that returns leaves one accepted attempt in the table and one security event
  -- beside it with the command, correlation, run, actor, outcome, reason and setpoint of the
  -- attempt; one that is rejected or fails leaves an attempt that is not accepted and its
  -- event; any other exception leaves both tables as they are.
  pub dispatch_interval-Recorded :
      (py : Conversions) (load : String → String → Option (Fields F.Float))
      (is_sha256 : String → Bool) (gateway : Option (SupervisoryGateway S)) (runs : Runs F.Float)
      (approvals : Approvals) (sub : Submission) (expires run_id interval_index : ℕ)
      (credential : Credential) (e : EvidenceLog) (s : S)
      → Recorded e (
          dispatch_interval py load is_sha256 gateway runs approvals sub expires run_id
            interval_index credential
            (e, s))
  unfolding dispatch_interval
  dispatch_interval-Recorded py load is_sha256 gateway runs approvals sub expires run_id
        interval_index credential e s =
      dispatch_submission-Recorded py load is_sha256 gateway
        (for_interval run_id interval_index sub) expires interval_index runs approvals run_id
        credential e s
