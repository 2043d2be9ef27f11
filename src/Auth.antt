-- ===== src/Auth.antt =====
-- aggregator_demo/auth.py: the service accounts, the authentication of a request and the roles.
-- Python's operations on texts that it uses, and its identifier pattern, are an interface.
pub mod Keys
mod Tests
use text.Mathlib.Text.{◌==◌ as str_eq}
use depotflux_demo.Prelude.{
  ℕ, Bool, true, false, not, ◌&&◌, ◌||◌, Option, none, some, List, [], ◌∷◌, String, ltb, ◌==◌, map,
  if◌then◌else◌, Result, ok, err, guard, raise_if, ◌>>=◌, ◌>>◌,
}

pub data AuthMode : Type 0 where
  disabled api_key : AuthMode

pub data Role : Type 0 where
  operator approver auditor admin : Role

abbrev role_rank : Role → ℕ
role_rank operator = 0
role_rank approver = 1
role_rank auditor = 2
role_rank admin = 3

-- The `ValueError`s of `from_environment`, the codes of `AuthenticationError`, and the `TypeError`
-- of `compare_digest` for a text that is not ASCII.
pub data AuthError : Type 0 where
  unknown_mode shared_key shared_subject : AuthError
  short_key unsafe_subject : Role → AuthError
  invalid_actor authentication_required invalid_access_key insufficient_role : AuthError
  not_ascii : AuthError

pub record Principal : Type 0 where
  pub subject : String
  pub role : Role

pub record ServiceAccount : Type 0 where
  pub subject : String
  pub role : Role
  pub api_key : String

pub record AuthConfig : Type 0 where
  pub mode : AuthMode
  pub accounts : List ServiceAccount

-- `strip`, `lower`, `len`, `isascii`, `_SUBJECT_PATTERN.fullmatch`, and the parts of
-- `partition(" ")` with whether the separator was found.
pub record Texts : Type 0 where
  pub strip : String → String
  pub lower : String → String
  pub count : String → ℕ
  pub is_ascii : String → Bool
  pub is_subject : String → Bool
  pub partition : String → String × Bool × String

-- `values.get(name, default)`
abbrev get_or : (String → Option String) → String → String → String
get_or values name default = elim (values name) [ none ↦ default | some value ↦ value ]

-- `_KEY_ENVIRONMENT_NAMES`, `_SUBJECT_ENVIRONMENT_NAMES` and `f"depotflux-{role.value}"`
abbrev key_name : Role → String
key_name operator = "DEMO_OPERATOR_API_KEY"
key_name approver = "DEMO_APPROVER_API_KEY"
key_name auditor = "DEMO_AUDITOR_API_KEY"
key_name admin = "DEMO_ADMIN_API_KEY"

abbrev subject_name : Role → String
subject_name operator = "DEMO_OPERATOR_ID"
subject_name approver = "DEMO_APPROVER_ID"
subject_name auditor = "DEMO_AUDITOR_ID"
subject_name admin = "DEMO_ADMIN_ID"

abbrev default_subject : Role → String
default_subject operator = "depotflux-operator"
default_subject approver = "depotflux-approver"
default_subject auditor = "depotflux-auditor"
default_subject admin = "depotflux-admin"

-- `len(set(texts)) != len(texts)`
unfoldable pub is_one_of : String → List String → Bool
is_one_of text [] = false
is_one_of text (other ∷ others) = str_eq text other || is_one_of text others

unfoldable pub has_duplicates : List String → Bool
has_duplicates [] = false
has_duplicates (text ∷ others) = is_one_of text others || has_duplicates others

module _ (py : Texts) where
  unfoldable pub account_of : (String → Option String) → Role → Result AuthError ServiceAccount
  account_of values role =
      let key = get_or values (key_name role) "" in
      let subject = py.strip (get_or values (subject_name role) (default_subject role)) in
      if ltb (py.count key) 20
      then err (short_key role)
      else if not (py.is_subject subject)
      then err (unsafe_subject role)
      else ok (record { subject = subject; role = role; api_key = key })

  unfoldable pub accounts_of :
      (String → Option String) → List Role → Result AuthError (List ServiceAccount)
  accounts_of values [] = ok []
  accounts_of values (role ∷ roles) =
      let rest = accounts_of values roles in
      account_of values role >>= λ account. rest >>= λ accounts. ok (account ∷ accounts)

  unfoldable pub unique_accounts : List ServiceAccount → Result AuthError AuthConfig
  unique_accounts accounts =
      if has_duplicates (map (λ a. a.api_key) accounts)
      then err shared_key
      else if has_duplicates (map (λ a. a.subject) accounts)
      then err shared_subject
      else ok (record { mode = api_key; accounts = accounts })

  -- `AuthConfig.from_environment`
  unfoldable pub from_environment : (String → Option String) → Result AuthError AuthConfig
  from_environment values =
      let mode = py.lower (py.strip (get_or values "DEMO_AUTH_MODE" "disabled")) in
      if str_eq mode "disabled"
      then ok (record { mode = disabled; accounts = [] })
      else if not (str_eq mode "api_key")
      then err unknown_mode
      else accounts_of values (operator ∷ approver ∷ auditor ∷ admin ∷ []) >>= unique_accounts

  -- The loop of `authenticate`; the last account with the key is taken.
  unfoldable pub match_account :
      String
      → Option ServiceAccount
      → List ServiceAccount
      → Result AuthError (Option ServiceAccount)
  match_account token matched [] = ok matched
  match_account token matched (account ∷ accounts) =
      let here = match_account token (some account) accounts in
      let rest = match_account token matched accounts in
      if not (py.is_ascii token && py.is_ascii account.api_key)
      then err not_ascii
      else if str_eq token account.api_key
      then here
      else rest

  -- The token of an `Authorization` header.
  unfoldable pub bearer_token : Option String → Result AuthError String
  bearer_token authorization =
      let parts = py.partition (elim authorization [ none ↦ "" | some text ↦ text ]) in
      if not parts.1 || (not (str_eq (py.lower parts.0) "bearer") || str_eq parts.2 "")
      then err authentication_required
      else ok parts.2

  unfoldable pub principal_of : Option ServiceAccount → Result AuthError Principal
  principal_of none = err invalid_access_key
  principal_of (some account) = ok (record { subject = account.subject; role = account.role })

  unfoldable pub development_principal : String → Result AuthError Principal
  development_principal development_subject =
      let stripped = py.strip development_subject in
      let subject = if str_eq stripped "" then "demo-operator" else stripped in
      if not (py.is_subject subject)
      then err invalid_actor
      else ok (record { subject = subject; role = admin })

  -- `AuthConfig.authenticate`
  unfoldable pub authenticate : AuthConfig → Option String → String → Result AuthError Principal
  authenticate config authorization development_subject = elim config.mode [
    | disabled ↦ development_principal development_subject
    | api_key ↦ bearer_token authorization >>= λ token.
        match_account token none config.accounts >>= principal_of
  ]

-- `require_role`
unfoldable pub is_allowed_role : Role → List Role → Bool
is_allowed_role role [] = false
is_allowed_role role (other ∷ others) =
    role_rank role == role_rank other || is_allowed_role role others

unfoldable pub require_role : Principal → List Role → Result AuthError (Unit {0})
require_role principal allowed = guard (is_allowed_role principal.role allowed) insufficient_role
