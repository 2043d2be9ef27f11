-- ===== src/Http/Submitted.antt =====
-- What stands behind a submitted run, and behind a command that reaches the site, from the
-- request's key to the bytes of the input.
use text.Mathlib.Text.{◌==◌ as str_eq}
use text.Mathlib.TextEquality.{eq_iff}
use depotflux_demo.Prelude.{
  ℕ, ◌≡◌, refl, sym, ap, ◌∙◌, ◌⊎◌, inl, inr, Bool, true, false, Option, none, some, [], ◌∷◌, String,
  Result, ok, Bool-cases, Option-cases, Result-cases, arith,
}
use depotflux_demo.Floats.{Floats}
use depotflux_demo.Runs.Json.{Fields}
use depotflux_demo.Runs.Row.{RunCreateRequest, RunRow, Runs}
use depotflux_demo.Runs.Create.{
  given, existing_run, resolve_idempotent, new_row, insert_row, after_collision, find_by_key,
  is_taken, create,
}
use depotflux_demo.Dispatch.Evidence.{
  DispatchAttempt, DispatchError, EvidenceLog, Submission, for_interval,
}
use depotflux_demo.Dispatch.Gate.{Credential}
use depotflux_demo.Dispatch.Clearance.{IsCleared, dispatch_interval-IsCleared}
use depotflux_demo.Registry.{RegistryError, Descriptor, verify, load}
use depotflux_demo.Registry.Loaded.{IsVerified, IsLoaded, verify-IsVerified, load-IsLoaded}
use depotflux_demo.Runs.Repository.{RunError}
use depotflux_demo.Auth.{AuthError, operator, admin}
use depotflux_demo.Http.{
  answered, auth_answer, Headers, Body, run_body, Service, Application, key_accepted, load_input,
}
use depotflux_demo.Http.Routes.{
  Fresh, run_request, dispatch_request, DispatchCreateRequest, serve, post_run, registry_answer,
  run_error_answer, create_dispatch_simulation, with_evidence, submission_of,
}
use depotflux_demo.Http.Confined.{Acts, with_roles_lem}

-- Two keys are accepted where they are one text that is not empty.
key_accepted_lem :
    (is_ascii : String → Bool) (provided configured : Option String)
    → key_accepted is_ascii provided configured ≡ some true
    → (key : String) × (provided ≡ some key) × (configured ≡ some key) × (str_eq key "" ≡ false)
unfolding key_accepted
key_accepted_lem is_ascii none configured e = absurd (ground (arith, e))
key_accepted_lem is_ascii (some p) none e = absurd (ground (arith, e))
key_accepted_lem is_ascii (some p) (some c) e = elim (Bool-cases (str_eq p c)) [
  | inl same ↦ (p, refl, ap some (sym ((eq_iff p c).0 same)), ground (arith, e))
  | inr differ ↦ absurd (ground (arith, e, differ))
]

module _ {A : Type 0} where
  resolve_idempotent_lem :
      (row found : RunRow A) (fingerprint : String) (created : Bool)
      → resolve_idempotent found fingerprint ≡ ok (row, created)
      → row.request_fingerprint ≡ fingerprint
  unfolding resolve_idempotent
  resolve_idempotent_lem row found fingerprint created e =
      elim (Bool-cases (str_eq found.request_fingerprint fingerprint)) [
        | inr differ ↦ absurd (ground (arith, e, differ))
        | inl same ↦
            let is_found : row ≡ found = ground (arith, e, same) in
            ap (λ r. r.request_fingerprint) is_found
            ∙ (eq_iff found.request_fingerprint fingerprint).0 same
      ]

  after_collision-fingerprint :
      (fingerprint : String) (key : Option String) (db : Runs A) (row : RunRow A) (created : Bool)
      → (after_collision key fingerprint db).0 ≡ ok (row, created)
      → row.request_fingerprint ≡ fingerprint
  unfolding after_collision
  after_collision-fingerprint fingerprint none db row created e = absurd (ground (arith, e))
  after_collision-fingerprint fingerprint (some k) db row created e =
      elim (Option-cases (find_by_key k db)) [
        | inl missing ↦ absurd (ground (arith, e, missing))
        | inr (found, f) ↦
            resolve_idempotent_lem row found fingerprint created (ground (arith, e, f))
      ]

  -- A run that create returns has the fingerprint of the request.
  create-fingerprint :
      (fingerprint : RunCreateRequest → String) (others : Runs A → Runs A)
      (request : RunCreateRequest) (user : String) (key : Option String) (new_id now : ℕ)
      (db : Runs A) (row : RunRow A) (created : Bool)
      → (create fingerprint others request user key new_id now db).0 ≡ ok (row, created)
      → row.request_fingerprint ≡ fingerprint request
  unfolding create insert_row new_row
  create-fingerprint fingerprint others request user key new_id now db row created e =
      elim (Option-cases (existing_run (given key) db)) [
        | inr (found, f) ↦
            resolve_idempotent_lem row found (fingerprint request) created (ground (arith, e, f))
        | inl new ↦
            elim (Bool-cases
              (is_taken (new_row request (fingerprint request) user key new_id now) (others db))) [
                | inr free ↦ ground (arith, e, new, free)
                | inl taken ↦
                    after_collision-fingerprint (fingerprint request) (given key) (others db) row
                      created (ground (arith, e, new, taken))
              ]
      ]

auth_answer_lem :
    {B : Type 0} (error : AuthError) (n : ℕ) (b : B) → auth_answer error ≡ answered n b → ⊥
unfolding auth_answer
auth_answer_lem error n b e = ground (arith, e)

registry_answer_lem :
    {B : Type 0} (error : RegistryError) (n : ℕ) (b : B) → registry_answer error ≡ answered n b → ⊥
unfolding registry_answer
registry_answer_lem error n b e = ground (arith, e)

run_error_answer_lem :
    {B : Type 0} (code : String) (error : RunError) (n : ℕ) (b : B)
    → run_error_answer code error ≡ answered n b
    → ⊥
unfolding run_error_answer
run_error_answer_lem code error n b e = ground (arith, e)

module _ ⦃F : Floats⦄ {S : Type 0} (app : Application S) where
  load_input_lem :
      (reference sha256 : String) (input : Fields F.Float)
      → load_input app reference sha256 ≡ some input
      → load app.files app.files_later app.entries reference sha256 ≡ ok input
  unfolding load_input
  load_input_lem reference sha256 input e =
      elim (Result-cases (load app.files app.files_later app.entries reference sha256)) [
        | inl (loaded, l) ↦ l ∙ ap ok (ground (arith, e, l))
        | inr (error, l) ↦ absurd (ground (arith, e, l))
      ]

  -- A run request that is answered with a run.
  pub record IsSubmitted (h : Headers) (request : RunCreateRequest) (row : RunRow F.Float)
      : Type 0 where
    pub actor : Acts app h (operator ∷ admin ∷ [])
    pub entry : Descriptor
    pub verified :
        IsVerified app.files app.entries request.input_reference request.input_sha256 entry
    pub same_request : row.request_fingerprint ≡ app.fingerprint request

  post_run-IsSubmitted :
      (h : Headers) (request : RunCreateRequest) (key : Option String) (fresh : Fresh)
      (s : Service S) (row : RunRow F.Float) (actor : Acts app h (operator ∷ admin ∷ []))
      → (post_run app request key fresh actor.principal s).0 ≡ answered 202 (run_body row)
      → IsSubmitted h request row
  unfolding post_run
  post_run-IsSubmitted h request key fresh s row actor e =
      elim (Result-cases
        (verify app.files app.entries request.input_reference request.input_sha256)) [
          | inr (error, unverified) ↦ absurd (
              registry_answer_lem {B = Body} error 202 (run_body row)
                (ground (arith, e, unverified)))
          | inl (entry, verified) ↦
              elim (Result-cases
                (create app.fingerprint (λ runs. runs) request actor.principal.subject key fresh.id
                  fresh.now s.runs).0) [
                    | inr (error, failure) ↦ absurd (
                        run_error_answer_lem {B = Body} "idempotency_conflict" error 202
                          (run_body row) (ground (arith, e, verified, failure)))
                    | inl ((made, created), c) ↦
                        let same : made ≡ row = ground (arith, e, verified, c) in
                        record {
                          actor = actor;
                          entry = entry;
                          verified =
                              verify-IsVerified app.files app.entries request.input_reference
                                request.input_sha256 entry verified;
                          same_request =
                              create-fingerprint app.fingerprint (λ runs. runs) request
                                actor.principal.subject key fresh.id fresh.now s.runs row created
                                (c ∙ ap (λ r. ok (r, created)) same);
                        }
                  ]
        ]

  -- A run request that is answered with 202 and a run was authenticated with the role operator
  -- or admin, names an entry of the registry by its reference and its hash, whose file is below
  -- the root and has the bytes of this hash, and the run has the fingerprint of the request.
  pub run_request-IsSubmitted :
      (h : Headers) (request : RunCreateRequest) (key : Option String) (fresh : Fresh)
      (s : Service S) (row : RunRow F.Float)
      → (serve app h (run_request request key) fresh s).0 ≡ answered 202 (run_body row)
      → IsSubmitted h request row
  unfolding serve
  run_request-IsSubmitted h request key fresh s row =
      with_roles_lem app (λ r. r.0 ≡ answered 202 (run_body row) → IsSubmitted h request row) h
        (operator ∷ admin ∷ []) (post_run app request key fresh) s
        (λ error e. absurd (auth_answer_lem error 202 (run_body row) e))
        (λ actor e. post_run-IsSubmitted h request key fresh s row actor e)

  -- A command that reaches the site behind the gateway.
  pub record IsCommanded (h : Headers) (run_id : ℕ) (request : DispatchCreateRequest)
      (control_key : Option String) (fresh : Fresh) (s : Service S) (site' : S) : Type 0 where
    pub actor : Acts app h (operator ∷ admin ∷ [])
    pub key : String
    pub presented : control_key ≡ some key
    pub configured : app.control_api_key ≡ some key
    pub sub : Submission
    pub expires : ℕ
    pub credential : Credential
    pub same_actor : sub.requested_by ≡ actor.principal.subject
    pub cleared :
        IsCleared app.py
          (load_input app)
          app.control_gateway
          s.runs
          s.approvals
          (for_interval run_id request.interval_index sub)
          expires
          credential
          run_id
          request.interval_index
          s.site
          site'
    pub loaded :
        IsLoaded app.files app.files_later app.entries cleared.run.request.input_reference
          cleared.run.request.input_sha256 cleared.input

  with_evidence-site :
      (s : Service S) (r : Result DispatchError DispatchAttempt × (EvidenceLog × S))
      → (with_evidence app s r).1.site ≡ r.1.1
  unfolding with_evidence
  with_evidence-site s (outcome, (evidence, site)) = refl

  -- Behind the comparison of the keys.
  cleared-IsCommanded :
      (h : Headers) (run_id : ℕ) (request : DispatchCreateRequest) (control_key : Option String)
      (fresh : Fresh) (s : Service S) (actor : Acts app h (operator ∷ admin ∷ []))
      (sub : Submission) (expires : ℕ) (credential : Credential) (site' : S)
      → sub.requested_by ≡ actor.principal.subject
      → key_accepted app.texts.is_ascii control_key app.control_api_key ≡ some credential.accepted
      → IsCleared app.py
          (load_input app)
          app.control_gateway
          s.runs
          s.approvals
          (for_interval run_id request.interval_index sub)
          expires
          credential
          run_id
          request.interval_index
          s.site
          site'
      → IsCommanded h run_id request control_key fresh s site'
  cleared-IsCommanded h run_id request control_key fresh s actor sub expires credential site'
        same_actor e cleared =
      let (key, presented, configured, _) =
        key_accepted_lem app.texts.is_ascii control_key app.control_api_key
          (e ∙ ap some cleared.credential_accepted) in
      record {
        actor = actor;
        key = key;
        presented = presented;
        configured = configured;
        sub = sub;
        expires = expires;
        credential = credential;
        same_actor = same_actor;
        cleared = cleared;
        loaded =
            load-IsLoaded app.files app.files_later app.entries cleared.run.request.input_reference
              cleared.run.request.input_sha256 cleared.input
              (load_input_lem _ _ cleared.input cleared.input_loaded);
      }

  dispatch-IsCommanded :
      (h : Headers) (run_id : ℕ) (request : DispatchCreateRequest) (control_key : Option String)
      (fresh : Fresh) (s : Service S) (actor : Acts app h (operator ∷ admin ∷ []))
      → let r = create_dispatch_simulation app run_id request control_key fresh actor.principal s in
        (r.1.site ≡ s.site) ⊎ IsCommanded h run_id request control_key fresh s r.1.site
  unfolding create_dispatch_simulation submission_of
  dispatch-IsCommanded h run_id request control_key fresh s actor =
      elim (Option-cases (key_accepted app.texts.is_ascii control_key app.control_api_key)) [
        | inl e ↦ rw (create_dispatch_simulation, e) (inl refl)
        | inr (accepted, e) ↦
            rw (create_dispatch_simulation, e, with_evidence-site s)
              (elim (dispatch_interval-IsCleared app.py (load_input app) app.is_sha256
                app.control_gateway s.runs s.approvals _ _ run_id request.interval_index _
                s.evidence s.site) [
                  | inl same ↦ inl same
                  | inr cleared ↦ inr (
                      cleared-IsCommanded h run_id request control_key fresh s actor _ _ _ _ refl e
                        cleared)
                ])
      ]

  -- A dispatch request either leaves the site behind the gateway as it is, or was authenticated
  -- with the role operator or admin, presented the configured control key, and passed every
  -- policy check of the dispatch in the name of its principal, on an input that the registry
  -- loaded: an entry under the reference and the hash of the run, with a file below the root
  -- whose bytes have this hash.
  pub dispatch_request-IsCommanded :
      (h : Headers) (run_id : ℕ) (request : DispatchCreateRequest) (control_key : Option String)
      (fresh : Fresh) (s : Service S)
      → let s' = (serve app h (dispatch_request run_id request control_key) fresh s).1 in
        (s'.site ≡ s.site) ⊎ IsCommanded h run_id request control_key fresh s s'.site
  unfolding serve
  dispatch_request-IsCommanded h run_id request control_key fresh s =
      with_roles_lem app
        (λ r. (r.1.site ≡ s.site) ⊎ IsCommanded h run_id request control_key fresh s r.1.site) h
        (operator ∷ admin ∷ []) (create_dispatch_simulation app run_id request control_key fresh) s
        (λ error. inl refl)
        (λ actor. dispatch-IsCommanded h run_id request control_key fresh s actor)
