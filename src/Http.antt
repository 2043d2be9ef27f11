-- ===== src/Http.antt =====
-- The service of aggregator_demo/app.py: the state that its routes share, who may call them, and what
-- they answer. A request that a route's handler sees has passed the validation of FastAPI, and is
-- served in one step.
pub mod Lists
pub mod Status
pub mod Routes
pub mod Submitted
pub mod Confined
pub mod Refines
mod Tests
use text.Mathlib.Text.{◌==◌ as str_eq}
use depotflux_demo.Prelude.{
  ℕ, Bool, true, false, not, ◌&&◌, ◌||◌, Option, none, some, List, String, if◌then◌else◌, Result,
  ok, err, ◌>>=◌, ◌>>◌,
}
use depotflux_demo.Floats.{Floats}
use depotflux_demo.Runs.Json.{Fields}
use depotflux_demo.Runs.Row.{RunCreateRequest, RunRow, Runs}
use depotflux_demo.Approvals.{ApprovalRow, Approvals}
use depotflux_demo.Approvals.Timeline.{AuditEvent}
use depotflux_demo.Notices.{NoticeRow, Notices}
use depotflux_demo.Simulations.{SimulationRow, Simulations}
use depotflux_demo.Dispatch.Evidence.{DispatchAttempt, SecurityEvent, EvidenceLog}
use depotflux_demo.Gateway.{StatusResponse}
use depotflux_demo.Dispatch.Gate.{SupervisoryGateway}
use depotflux_demo.Schedule.{Conversions}
use depotflux_demo.Registry.{Descriptor, RegistryError, InputFiles, load}
use depotflux_demo.Auth.{
  Role, operator, approver, admin, AuthError, invalid_actor, authentication_required,
  invalid_access_key, insufficient_role, Principal, AuthConfig, Texts, authenticate, require_role,
}

-- A response with its status code and its body, an `ErrorResponse` with its code, or an exception
-- that no handler turns into a response.
pub data Answer (B : Type 0) : Type 0 where
  answered : ℕ → B → Answer B
  refused : ℕ → String → Answer B
  unhandled : Answer B

-- The credentials of a request: the header that `HTTPBearer` accepted, and `X-Operator-ID`.
pub record Headers : Type 0 where
  pub authorization : Option String
  pub operator_id : String

pub data Body ⦃F : Floats⦄ : Type 0 where
  inputs_body : List Descriptor → Body
  run_body : RunRow F.Float → Body
  runs_body : List (RunRow F.Float) → Body
  approval_body : ApprovalRow → Body
  timeline_body : List AuditEvent → Body
  notice_body : NoticeRow → Body
  attempt_body : DispatchAttempt → Body
  simulation_body : SimulationRow → Body
  notices_body : Notices → Body
  attempts_body : List DispatchAttempt → Body
  events_body : List SecurityEvent → Body
  simulations_body : Simulations → Body
  status_body : StatusResponse → Body

-- The tables of the database, and the state behind the gateway.
pub record Service ⦃F : Floats⦄ (S : Type 0) : Type 0 where
  pub runs : Runs F.Float
  pub approvals : Approvals
  pub notices : Notices
  pub simulations : Simulations
  pub evidence : EvidenceLog
  pub site : S

-- `application.state`, and what the modules behind it take as parameters.
pub record Application ⦃F : Floats⦄ (S : Type 0) : Type 1 where
  pub texts : Texts
  pub auth_config : AuthConfig
  pub control_api_key : Option String
  pub emergency_api_key : Option String
  pub control_gateway : Option (SupervisoryGateway S)
  pub entries : List Descriptor
  pub files : InputFiles F.Float
  pub files_later : InputFiles F.Float
  pub fingerprint : RunCreateRequest → String
  pub is_sha256 : String → Bool
  pub text_length : String → ℕ
  pub py : Conversions

-- `authentication_error_handler`
unfoldable pub auth_answer : {B : Type 0} → AuthError → Answer B
auth_answer invalid_actor = refused 400 "invalid_actor"
auth_answer authentication_required = refused 401 "authentication_required"
auth_answer invalid_access_key = refused 401 "invalid_access_key"
auth_answer insufficient_role = refused 403 "insufficient_role"
auth_answer _ = unhandled

-- `bool(configured and provided and compare_digest(provided, configured))`; `none` is the
-- `TypeError` for a text that is not ASCII
unfoldable pub key_accepted : (String → Bool) → Option String → Option String → Option Bool
key_accepted is_ascii (some provided) (some configured) =
    if str_eq configured "" || str_eq provided ""
    then some false
    else if not (is_ascii provided && is_ascii configured)
    then none
    else some (str_eq provided configured)
key_accepted is_ascii _ _ = some false

-- `bool(configured)`
unfoldable pub is_configured : Option String → Bool
is_configured none = false
is_configured (some key) = not (str_eq key "")

module _ ⦃F : Floats⦄ {S : Type 0} (app : Application S) where
  -- A handler on the tables, with its principal.
  abbrev pub RouteHandler : Type 0
  RouteHandler = Principal → Service S → Answer Body × Service S

  -- `authenticated_principal`
  unfoldable pub authenticated_principal : Headers → Result AuthError Principal
  authenticated_principal headers =
      authenticate app.texts app.auth_config headers.authorization headers.operator_id

  -- A route that depends on `AnyPrincipal`.
  unfoldable pub with_principal : Headers → RouteHandler → Service S → Answer Body × Service S
  with_principal headers handler s = elim (authenticated_principal headers) [
    | err error ↦ (auth_answer error, s)
    | ok principal ↦ handler principal s
  ]

  -- A route that depends on `require_roles(*allowed)`.
  unfoldable pub with_roles :
      Headers → List Role → RouteHandler → Service S → Answer Body × Service S
  with_roles headers allowed handler s =
      elim (authenticated_principal headers >>= λ principal.
      require_role principal allowed >> ok principal) [
        | err error ↦ (auth_answer error, s)
        | ok principal ↦ handler principal s
      ]

  -- `input_registry.load`, as the repositories behind the routes see it: none of them catches its
  -- errors.
  unfoldable pub load_input : String → String → Option (Fields F.Float)
  load_input reference sha256 = elim (load app.files app.files_later app.entries reference sha256) [
    | err _ ↦ none
    | ok input ↦ some input
  ]
