-- ===== src/Auth/Tests.antt =====
-- A configuration of four accounts, and the theorem at a request with one of their keys.
use text.Mathlib.Text.{◌==◌ as str_eq}
use depotflux_demo.Prelude.{◌≡◌, refl, true, some, [], ◌∷◌, String, Option, ok, if◌then◌else◌}
use depotflux_demo.Auth.{
  api_key, operator, approver, auditor, admin, Principal, AuthConfig, Texts, is_one_of,
  has_duplicates, account_of, accounts_of, unique_accounts, from_environment, match_account,
  bearer_token, principal_of, authenticate,
}
use depotflux_demo.Auth.Keys.{IsAuthenticated, authenticate-IsAuthenticated}

abbrev texts : Texts
texts = record {
  strip = λ t. t;
  lower = λ t. t;
  count = λ _. 20;
  is_ascii = λ _. true;
  is_subject = λ _. true;
  partition = λ t. ("bearer", true, t);
}

-- Every variable but the mode has its own name as its value.
abbrev values : String → Option String
values name = if str_eq name "DEMO_AUTH_MODE" then some "api_key" else some name

abbrev config : AuthConfig
config = record {
  mode = api_key;
  accounts =
      record { subject = "DEMO_OPERATOR_ID"; role = operator; api_key = "DEMO_OPERATOR_API_KEY" }
      ∷ record { subject = "DEMO_APPROVER_ID"; role = approver; api_key = "DEMO_APPROVER_API_KEY" }
      ∷ record { subject = "DEMO_AUDITOR_ID"; role = auditor; api_key = "DEMO_AUDITOR_API_KEY" }
      ∷ record { subject = "DEMO_ADMIN_ID"; role = admin; api_key = "DEMO_ADMIN_API_KEY" }
      ∷ [];
}

abbrev principal : Principal
principal = record { subject = "DEMO_AUDITOR_ID"; role = auditor }

configured : from_environment texts values ≡ ok config
unfolding from_environment accounts_of account_of unique_accounts has_duplicates is_one_of
configured = refl

authenticated :
    authenticate texts config (some "DEMO_AUDITOR_API_KEY") "demo-operator" ≡ ok principal
unfolding authenticate bearer_token match_account principal_of
authenticated = refl

authenticate-IsAuthenticated_example :
    IsAuthenticated texts config (some "DEMO_AUDITOR_API_KEY") principal
authenticate-IsAuthenticated_example =
    authenticate-IsAuthenticated texts values config (some "DEMO_AUDITOR_API_KEY") "demo-operator"
      principal configured refl authenticated
