-- ===== src/Auth/Keys.antt =====
-- The key of a request determines its account.
use mathlib.Core.Path.{subst}
use text.Mathlib.Text.{◌==◌ as str_eq}
use text.Mathlib.TextEquality.{eq_iff}
use depotflux_demo.Prelude.{
  ◌≡◌, sym, ap, ◌∙◌, ◌⊎◌, inl, inr, true, false, Option, none, some, List, [], ◌∷◌, String, map, ok,
  All, Bool-cases, Result-cases, arith,
}
use depotflux_demo.Auth.{
  api_key, Principal, ServiceAccount, AuthConfig, Texts, operator, approver, auditor, admin,
  is_one_of, has_duplicates, accounts_of, unique_accounts, from_environment, match_account,
  bearer_token, principal_of, authenticate,
}

-- Every account of the list that has the key is this one.
abbrev pub OnlyAccount : String → ServiceAccount → List ServiceAccount → Type 0
OnlyAccount token account accounts = All (λ other. token ≡ other.api_key → other ≡ account) accounts

abbrev pub IsAccount : ServiceAccount → List ServiceAccount → Type 0
IsAccount account [] = ⊥
IsAccount account (other ∷ accounts) = (other ≡ account) ⊎ IsAccount account accounts

absent_key :
    (key : String) (accounts : List ServiceAccount)
    → is_one_of key (map (λ a. a.api_key) accounts) ≡ false
    → (account : ServiceAccount) → OnlyAccount key account accounts
unfolding is_one_of
absent_key key [] h account = tt
absent_key key (other ∷ accounts) h account = (
  (λ same. absurd (differ ((eq_iff key other.api_key).1 same))),
  absent_key key accounts (ground (arith, h)) account,
)
  where
    differ : str_eq key other.api_key ≡ true → ⊥
    differ e = ground (arith, h, e)

module _ (py : Texts) where
  -- What a match says, where no two accounts share a key.
  abbrev Matched : String → List ServiceAccount → ServiceAccount → Type 0
  Matched token accounts account =
      (token ≡ account.api_key) × IsAccount account accounts × OnlyAccount token account accounts

  match-absent :
      (token : String) (matched account : ServiceAccount) (accounts : List ServiceAccount)
      → is_one_of token (map (λ a. a.api_key) accounts) ≡ false
      → match_account py token (some matched) accounts ≡ ok (some account)
      → account ≡ matched
  unfolding match_account is_one_of
  match-absent token matched account [] h e = cc e
  match-absent token matched account (other ∷ accounts) h e =
      match-absent token matched account accounts (ground (arith, h)) (ground (arith, h, e))

  match_account-Matched :
      (token : String) (account : ServiceAccount) (accounts : List ServiceAccount)
      → has_duplicates (map (λ a. a.api_key) accounts) ≡ false
      → match_account py token none accounts ≡ ok (some account)
      → Matched token accounts account
  unfolding match_account has_duplicates
  match_account-Matched token account [] h e = absurd (ground (arith, e))
  match_account-Matched token account (other ∷ accounts) h e =
      elim (Bool-cases (str_eq token other.api_key)) [
        | inl here ↦
            let key = (eq_iff token other.api_key).0 here in
            let free : is_one_of token (map (λ a. a.api_key) accounts) ≡ false =
              ap (λ k. is_one_of k (map (λ a. a.api_key) accounts)) key ∙ ground (arith, h) in
            let same : account ≡ other =
              match-absent token other account accounts free (ground (arith, e, here)) in
            (
              key ∙ ap (λ a. a.api_key) (sym same),
              inl (sym same),
              ((λ _. sym same), absent_key token accounts free account),
            )
        | inr elsewhere ↦
            let (key, member, only) =
              match_account-Matched token account accounts (ground (arith, h))
                (ground (arith, e, elsewhere)) in
            (
              key,
              inr member,
              ((λ same. absurd (differ ((eq_iff token other.api_key).1 same) elsewhere)), only),
            )
      ]
    where
      differ : str_eq token other.api_key ≡ true → str_eq token other.api_key ≡ false → ⊥
      differ p q = cc (p, q)

  unique_accounts_lem :
      (accounts : List ServiceAccount) (config : AuthConfig)
      → unique_accounts py accounts ≡ ok config
      → has_duplicates (map (λ a. a.api_key) config.accounts) ≡ false
  unfolding unique_accounts
  unique_accounts_lem accounts config e = ground (arith, e)

  from_environment_lem :
      (values : String → Option String) (config : AuthConfig)
      → from_environment py values ≡ ok config
      → has_duplicates (map (λ a. a.api_key) config.accounts) ≡ false
  unfolding from_environment has_duplicates
  from_environment_lem values config e =
      elim (Result-cases (accounts_of py values (operator ∷ approver ∷ auditor ∷ admin ∷ []))) [
        | inl (accounts, found) ↦ ground (arith, e, found, unique_accounts_lem accounts config)
        | inr (error, failure) ↦ ground (arith, e, failure)
      ]

  -- What an authenticated request has shown.
  pub record IsAuthenticated (config : AuthConfig) (authorization : Option String)
      (principal : Principal) : Type 0 where
    pub account : ServiceAccount
    pub presented : bearer_token py authorization ≡ ok account.api_key
    pub is_configured : IsAccount account config.accounts
    pub is_only : OnlyAccount account.api_key account config.accounts
    pub same_subject : principal.subject ≡ account.subject
    pub same_role : principal.role ≡ account.role

  -- Under a configuration in API-key mode that from_environment has accepted, a request that
  -- authenticates presents the key of a configured account as its bearer token, no other
  -- account has this key, and the principal has the subject and the role of the account.
  pub authenticate-IsAuthenticated :
      (values : String → Option String) (config : AuthConfig) (authorization : Option String)
      (development_subject : String) (principal : Principal)
      → from_environment py values ≡ ok config
      → config.mode ≡ api_key
      → authenticate py config authorization development_subject ≡ ok principal
      → IsAuthenticated config authorization principal
  unfolding authenticate principal_of
  authenticate-IsAuthenticated values config authorization development_subject principal configured
        mode e =
      elim (Result-cases (bearer_token py authorization)) [
        | inr (error, refused) ↦ absurd (ground (arith, e, mode, refused))
        | inl (token, presented) ↦
            elim (Result-cases (match_account py token none config.accounts)) [
              | inr (error, refused) ↦ absurd (ground (arith, e, mode, presented, refused))
              | inl (none, unmatched) ↦ absurd (ground (arith, e, mode, presented, unmatched))
              | inl (some account, matched) ↦
                  let (key, member, only) =
                    match_account-Matched token account config.accounts
                      (from_environment_lem values config configured) matched in
                  record {
                    account = account;
                    presented = presented ∙ ap ok key;
                    is_configured = member;
                    is_only = subst (λ k. OnlyAccount k account config.accounts) key only;
                    same_subject = ground (arith, e, mode, presented, matched);
                    same_role = ground (arith, e, mode, presented, matched);
                  }
            ]
      ]
