-- ===== src/Http/Tests.antt =====
-- A service with one approved run over a gateway that counts its calls, without API keys for the roles,
-- and the theorems at its requests.
use depotflux_demo.Prelude.{
  ℕ, suc, ◌⊎◌, ◌≡◌, refl, true, arith, Option, none, some, List, [], ◌∷◌, String, err,
}
use depotflux_demo.Prelude.Int.{ℤ}
use depotflux_demo.Floats.Fixed.{fixed}
use depotflux_demo.Runs.Status.{queued, is_terminal}
use depotflux_demo.Runs.Json.{dict, Fields}
use depotflux_demo.Runs.Row.{RunCreateRequest, RunRow, find}
use depotflux_demo.Runs.Create.{given, existing_run, is_taken, new_row, insert_row, create}
use depotflux_demo.Approvals.{approved, find_approval}
use depotflux_demo.Approvals.Binding.{AllBound}
use depotflux_demo.Gateway.HttpClient.{gateway_unavailable}
use depotflux_demo.Samples.{numeric, candidate, input, approval}
use depotflux_demo.Dispatch.Gate.{SupervisoryGateway}
use depotflux_demo.Registry.{
  parsed_json, InputFiles, find_descriptor, descriptor, path_for, check_bytes, verify,
}
use depotflux_demo.Auth.{
  disabled, Texts, authenticate, development_principal, require_role, is_allowed_role,
}
use depotflux_demo.Http.{
  answered, Headers, run_body, Service, Application, authenticated_principal, with_roles,
}
use depotflux_demo.Http.Routes.{
  Fresh, ApiRequest, DispatchCreateRequest, run_request, dispatch_request, approval_request,
  cancel_request, serve, serve_all, post_run,
}
use depotflux_demo.Http.Submitted.{
  IsSubmitted, IsCommanded, run_request-IsSubmitted, dispatch_request-IsCommanded,
}
use depotflux_demo.Http.Confined.{IsConfined, Watches, serve-IsConfined}
use depotflux_demo.Http.Refines.{serve_all-AllBound, serve_all-terminal_run}

abbrev texts : Texts
texts = record {
  strip = λ t. t;
  lower = λ t. t;
  count = λ _. 20;
  is_ascii = λ _. true;
  is_subject = λ _. true;
  partition = λ t. ("bearer", true, t);
}

-- Every file has the empty hash and holds the sample input.
abbrev files : InputFiles ℤ
files = record {
  FilePath = Unit {0};
  resolve = λ _. tt;
  is_below_root = λ _. true;
  is_file = λ _. true;
  digest_at = λ _. some "";
  json_at = λ _. parsed_json (dict input);
}

abbrev unreachable : SupervisoryGateway ⦃F = fixed⦄ ℕ
unreachable = record {
  dispatch = λ _ calls. (err gateway_unavailable, suc calls);
  safe_state = λ _ calls. (err gateway_unavailable, suc calls);
  controller_status = λ calls. (err gateway_unavailable, suc calls);
}

abbrev app : Application ⦃F = fixed⦄ ℕ
app = record {
  texts = texts;
  auth_config = record { mode = disabled; accounts = [] };
  control_api_key = some "control";
  emergency_api_key = none;
  control_gateway = some unreachable;
  entries =
      record { reference = "depot"; sha256 = ""; filename = "depot.json"; fleet_size = 8 } ∷ [];
  files = files;
  files_later = files;
  fingerprint = λ request. request.input_reference;
  is_sha256 = λ _. true;
  text_length = λ _. 1;
  py = numeric;
}

abbrev service : Service ⦃F = fixed⦄ ℕ
service = record {
  runs = candidate ∷ [];
  approvals = [];
  notices = [];
  simulations = [];
  evidence = record { attempts = []; events = [] };
  site = 0;
}

abbrev approved_service : Service ⦃F = fixed⦄ ℕ
approved_service = record service { approvals = approval ∷ [] }

abbrev headers : Headers
headers = record { authorization = none; operator_id = "ann" }

abbrev fresh : Fresh
fresh = record {
  id = 80;
  now = 90;
  second_id = 81;
  later = 91;
  command = 82;
  correlation = 83;
  completed = 92;
}

abbrev planning : RunCreateRequest
planning = candidate.request

abbrev planned : RunRow ℤ
planned = record {
  id = 80;
  idempotency_key = none;
  request_fingerprint = "depot";
  status = queued;
  request = planning;
  requested_by = "ann";
  created_at = 90;
  updated_at = 90;
  started_at = none;
  completed_at = none;
  failure_code = none;
  failure_message = none;
  worker_id = none;
  heartbeat_at = none;
  recovery_count = 0;
  last_recovered_at = none;
  solver_name = none;
  result_sha256 = none;
  result_payload = none;
}

submitted :
    (serve app headers (run_request planning none) fresh service).0
    ≡ answered 202 (run_body planned)
unfolding serve with_roles authenticated_principal authenticate development_principal require_role
    is_allowed_role post_run verify descriptor find_descriptor path_for check_bytes create given
    existing_run insert_row is_taken new_row find
submitted = refl

run_request-IsSubmitted_example : IsSubmitted app headers planning planned
run_request-IsSubmitted_example =
    run_request-IsSubmitted app headers planning none fresh service planned submitted

abbrev interval : DispatchCreateRequest
interval = record { interval_index = 1; command_id = none; issued_at = none; expires_at = none }

abbrev commanded : Service ⦃F = fixed⦄ ℕ
commanded =
    (serve app headers (dispatch_request 3 interval (some "control")) fresh approved_service).1

dispatch_request-IsCommanded_example :
    (commanded.site ≡ 0)
    ⊎ IsCommanded app headers 3 interval (some "control") fresh approved_service commanded.site
dispatch_request-IsCommanded_example =
    dispatch_request-IsCommanded app headers 3 interval (some "control") fresh approved_service

serve-IsConfined_example :
    IsConfined app headers approved_service commanded
    ⊎ Watches app headers (dispatch_request 3 interval (some "control")) approved_service commanded
serve-IsConfined_example =
    serve-IsConfined app headers (dispatch_request 3 interval (some "control")) fresh
      approved_service

abbrev requests : List (Headers × ApiRequest × Fresh)
requests =
    (headers, run_request planning none, fresh)
    ∷ (headers, approval_request 3 (record { decision = approved; note = none }), fresh)
    ∷ (headers, cancel_request 80, fresh)
    ∷ []

abbrev digest : Fields ℤ → Option String
digest _ = some "d"

serve_all-terminal_run_example : find 3 (serve_all app requests service).runs ≡ some candidate
unfolding find is_terminal
serve_all-terminal_run_example =
    serve_all-terminal_run app digest requests service 3 candidate refl refl

undecided : AllBound service.runs service.approvals
unfolding find_approval
undecided run_id row e = absurd (ground (arith, e))

serve_all-AllBound_example :
    AllBound (serve_all app requests service).runs (serve_all app requests service).approvals
serve_all-AllBound_example = serve_all-AllBound app digest requests service undecided
