-- ===== src/Http/Confined.antt =====
-- Which requests change which tables, for whom.
use mathlib.Core.Path.{subst}
use depotflux_demo.Prelude.{
  ℕ, sym, String, ◌≡◌, refl, ◌⊎◌, inl, inr, true, Option, List, [], ◌∷◌, Result, ok, Bool-cases,
  Option-cases, Result-cases, arith,
}
use depotflux_demo.Floats.{Floats}
use depotflux_demo.Auth.{
  Role, AuthError, insufficient_role, operator, approver, admin, Principal, is_allowed_role,
  require_role,
}
use depotflux_demo.Runs.Row.{RunCreateRequest}
use depotflux_demo.Dispatch.Evidence.{DispatchAttempt, DispatchError, EvidenceLog}
use depotflux_demo.Approvals.{ApprovalCreateRequest}
use depotflux_demo.Notices.{NoticeCreateRequest}
use depotflux_demo.Control.{authenticate_control_key}
use depotflux_demo.Registry.{verify}
use depotflux_demo.Http.{
  Answer, Headers, Body, Service, Application, RouteHandler, authenticated_principal,
  with_principal, with_roles, auth_answer, key_accepted,
}
use depotflux_demo.Http.Lists.{
  list_notices, get_notice, list_security_events, list_dispatch_simulations,
  list_control_simulations,
}
use depotflux_demo.Http.Status.{
  read_controller_status, StatusRead, read_controller_status-StatusRead,
}
use depotflux_demo.Http.Routes.{
  ApiRequest, Fresh, DispatchCreateRequest, drill_request, list_inputs_request, run_request,
  drill_run_request, read_run_request, read_result_request, read_approval_request, timeline_request,
  run_notice_request, run_page_request, approval_request, notice_request, dispatch_request,
  safe_state_request, simulation_request, cancel_request, notice_page_request, event_page_request,
  read_notice_request, attempt_page_request, run_simulations_request, status_request, serve,
  list_demo_inputs, get_run, get_run_result, read_approval, get_timeline, get_run_notice,
  list_run_page, post_run, create_failure_drill, post_approval, simulate_notice, post_cancel,
  with_evidence, create_dispatch_simulation, activate_emergency_safe_state,
  create_control_simulation,
}

module _ ⦃F : Floats⦄ {S : Type 0} (app : Application S) where
  -- The request is authenticated, and its principal has one of these roles.
  pub record Acts (h : Headers) (roles : List Role) : Type 0 where
    pub principal : Principal
    pub is_authenticated : authenticated_principal app h ≡ ok principal
    pub is_allowed : is_allowed_role principal.role roles ≡ true

  -- What a request does to each table: nothing, unless its principal has one of the roles.
  pub record IsConfined (h : Headers) (s s' : Service S) : Type 0 where
    pub runs : (s'.runs ≡ s.runs) ⊎ Acts h (operator ∷ admin ∷ [])
    pub notices : (s'.notices ≡ s.notices) ⊎ Acts h (operator ∷ admin ∷ [])
    pub simulations : (s'.simulations ≡ s.simulations) ⊎ Acts h (operator ∷ admin ∷ [])
    pub approvals : (s'.approvals ≡ s.approvals) ⊎ Acts h (approver ∷ admin ∷ [])
    pub evidence : (s'.evidence ≡ s.evidence) ⊎ Acts h (operator ∷ admin ∷ [])
    pub site : (s'.site ≡ s.site) ⊎ Acts h (operator ∷ admin ∷ [])

  -- A request for the status of the controller, of a principal with any role and with the control
  -- key, has changed the state behind the gateway as reading the status there does.
  pub record Watches (h : Headers) (request : ApiRequest) (s s' : Service S) : Type 0 where
    pub control_key : Option String
    pub is_status : request ≡ status_request control_key
    pub principal : Principal
    pub is_authenticated : authenticated_principal app h ≡ ok principal
    pub reads_status : StatusRead app control_key s s'

  unchanged : (h : Headers) (s : Service S) → IsConfined h s s
  unchanged h s = record {
    runs = inl refl;
    notices = inl refl;
    simulations = inl refl;
    approvals = inl refl;
    evidence = inl refl;
    site = inl refl;
  }

  with_roles-cases :
      (h : Headers) (roles : List Role) (handler : RouteHandler app) (s : Service S)
      → ((error : AuthError) × (with_roles app h roles handler s ≡ (auth_answer error, s)))
        ⊎ ((actor : Acts h roles) × (with_roles app h roles handler s ≡ handler actor.principal s))
  unfolding require_role with_roles
  with_roles-cases h roles handler s = elim (Result-cases (authenticated_principal app h)) [
    | inr (error, e) ↦ inl (error, rw (with_roles, e) refl)
    | inl (principal, e) ↦ elim (Bool-cases (is_allowed_role principal.role roles)) [
      | inr wrong ↦ inl (insufficient_role, rw (with_roles, e, wrong) refl)
      | inl allowed ↦ inr (
        record { principal = principal; is_authenticated = e; is_allowed = allowed },
        rw (with_roles, e, allowed) refl,
      )
    ]
  ]

  pub with_roles_lem :
      (P : Answer Body × Service S → Type 0) (h : Headers) (roles : List Role)
      (handler : RouteHandler app) (s : Service S)
      → ((error : AuthError) → P (auth_answer error, s))
      → ((actor : Acts h roles) → P (handler actor.principal s))
      → P (with_roles app h roles handler s)
  with_roles_lem P h roles handler s refused handled = elim (with_roles-cases h roles handler s) [
    | inl (error, e) ↦ subst P (sym e) (refused error)
    | inr (actor, e) ↦ subst P (sym e) (handled actor)
  ]

  pub with_principal-keeps :
      (h : Headers) (handler : RouteHandler app) (s : Service S)
      → ((principal : Principal) → (handler principal s).1 ≡ s)
      → (with_principal app h handler s).1 ≡ s
  unfolding with_principal
  with_principal-keeps h handler s keeps = elim (Result-cases (authenticated_principal app h)) [
    | inr (error, e) ↦ rw (with_principal, e) refl
    | inl (principal, e) ↦ rw (with_principal, e) (keeps principal)
  ]

  status-Watches :
      (h : Headers) (key : Option String) (s : Service S)
      → IsConfined h s (with_principal app h (λ _. read_controller_status app key) s).1
        ⊎ Watches h
            (status_request key)
            s
            (with_principal app h (λ _. read_controller_status app key) s).1
  unfolding with_principal
  status-Watches h key s = elim (Result-cases (authenticated_principal app h)) [
    | inr (error, e) ↦ inl (rw (with_principal, e) (unchanged h s))
    | inl (principal, e) ↦
        rw (with_principal, e)
          (elim (read_controller_status-StatusRead app key s) [
            | inl same ↦ inl (subst (λ s'. IsConfined h s s') (sym same) (unchanged h s))
            | inr reading ↦ inr (record {
              control_key = key;
              is_status = refl;
              principal = principal;
              is_authenticated = e;
              reads_status = reading;
            })
          ])
  ]

  -- A reading route leaves the service as it is.
  reads :
      (h : Headers) (handler : RouteHandler app) (s : Service S)
      → ((principal : Principal) → (handler principal s).1 ≡ s)
      → IsConfined h s (with_principal app h handler s).1
  reads h handler s keeps =
      subst (λ s'. IsConfined h s s') (sym (with_principal-keeps h handler s keeps)) (unchanged h s)

  -- A writing route, by what its handler does for a principal with a role.
  writes :
      (h : Headers) (roles : List Role) (handler : RouteHandler app) (s : Service S)
      → ((actor : Acts h roles) → IsConfined h s (handler actor.principal s).1)
      → IsConfined h s (with_roles app h roles handler s).1
  writes h roles handler s handled =
      with_roles_lem (λ r. IsConfined h s r.1) h roles handler s (λ a. unchanged h s) handled

  -- Each handler that writes, for a principal that may call it.
  post_run-IsConfined :
      (h : Headers) (request : RunCreateRequest) (key : Option String) (fresh : Fresh)
      (s : Service S) (actor : Acts h (operator ∷ admin ∷ []))
      → IsConfined h s (post_run app request key fresh actor.principal s).1
  unfolding post_run
  post_run-IsConfined h request key fresh s actor =
      elim (Result-cases
        (verify app.files app.entries request.input_reference request.input_sha256)) [
          | inr (error, e) ↦ rw (post_run, e) (unchanged h s)
          | inl (entry, e) ↦
              rw (post_run, e)
                (record {
                  runs = inr actor;
                  notices = inl refl;
                  simulations = inl refl;
                  approvals = inl refl;
                  evidence = inl refl;
                  site = inl refl;
                })
        ]

  post_approval-IsConfined :
      (h : Headers) (run_id : ℕ) (request : ApprovalCreateRequest) (fresh : Fresh) (s : Service S)
      (actor : Acts h (approver ∷ admin ∷ []))
      → IsConfined h s (post_approval app run_id request fresh actor.principal s).1
  unfolding post_approval
  post_approval-IsConfined h run_id request fresh s actor = record {
    runs = inl refl;
    notices = inl refl;
    simulations = inl refl;
    approvals = inr actor;
    evidence = inl refl;
    site = inl refl;
  }

  simulate_notice-IsConfined :
      (h : Headers) (request : NoticeCreateRequest) (key : Option String) (fresh : Fresh)
      (s : Service S) (actor : Acts h (operator ∷ admin ∷ []))
      → IsConfined h s (simulate_notice app request key fresh actor.principal s).1
  unfolding simulate_notice
  simulate_notice-IsConfined h request key fresh s actor = record {
    runs = inr actor;
    notices = inr actor;
    simulations = inl refl;
    approvals = inl refl;
    evidence = inl refl;
    site = inl refl;
  }

  post_cancel-IsConfined :
      (h : Headers) (run_id : ℕ) (fresh : Fresh) (s : Service S)
      (actor : Acts h (operator ∷ admin ∷ []))
      → IsConfined h s (post_cancel app run_id fresh s).1
  unfolding post_cancel
  post_cancel-IsConfined h run_id fresh s actor = record {
    runs = inr actor;
    notices = inl refl;
    simulations = inl refl;
    approvals = inl refl;
    evidence = inl refl;
    site = inl refl;
  }

  with_evidence-IsConfined :
      (h : Headers) (s : Service S) (r : Result DispatchError DispatchAttempt × (EvidenceLog × S))
      (actor : Acts h (operator ∷ admin ∷ []))
      → IsConfined h s (with_evidence app s r).1
  unfolding with_evidence
  with_evidence-IsConfined h s (outcome, (evidence, site)) actor = record {
    runs = inl refl;
    notices = inl refl;
    simulations = inl refl;
    approvals = inl refl;
    evidence = inr actor;
    site = inr actor;
  }

  create_dispatch_simulation-IsConfined :
      (h : Headers) (run_id : ℕ) (request : DispatchCreateRequest) (key : Option String)
      (fresh : Fresh) (s : Service S) (actor : Acts h (operator ∷ admin ∷ []))
      → IsConfined h s (create_dispatch_simulation app run_id request key fresh actor.principal s).1
  unfolding create_dispatch_simulation
  create_dispatch_simulation-IsConfined h run_id request key fresh s actor =
      elim (Option-cases (key_accepted app.texts.is_ascii key app.control_api_key)) [
        | inl e ↦ rw (create_dispatch_simulation, e) (unchanged h s)
        | inr (accepted, e) ↦
            rw (create_dispatch_simulation, e) (with_evidence-IsConfined h s _ actor)
      ]

  -- An administrator may do what an operator may.
  admin_acts : (h : Headers) → Acts h (admin ∷ []) → Acts h (operator ∷ admin ∷ [])
  unfolding is_allowed_role
  admin_acts h actor = record {
    principal = actor.principal;
    is_authenticated = actor.is_authenticated;
    is_allowed = ground (arith, actor.is_allowed);
  }

  emergency-IsConfined :
      (h : Headers) (reason : String) (key : Option String) (fresh : Fresh) (s : Service S)
      (actor : Acts h (admin ∷ []))
      → IsConfined h s (activate_emergency_safe_state app reason key fresh actor.principal s).1
  unfolding activate_emergency_safe_state
  emergency-IsConfined h reason key fresh s actor =
      elim (Option-cases (key_accepted app.texts.is_ascii key app.emergency_api_key)) [
        | inl e ↦ rw (activate_emergency_safe_state, e) (unchanged h s)
        | inr (accepted, e) ↦
            rw (activate_emergency_safe_state, e)
              (with_evidence-IsConfined h s _ (admin_acts h actor))
      ]

  create_control_simulation-IsConfined :
      (h : Headers) (run_id interval_index : ℕ) (key : Option String) (fresh : Fresh)
      (s : Service S) (actor : Acts h (operator ∷ admin ∷ []))
      → IsConfined h s
          (create_control_simulation app run_id interval_index key fresh actor.principal s).1
  unfolding create_control_simulation
  create_control_simulation-IsConfined h run_id interval_index key fresh s actor =
      elim (Option-cases (key_accepted app.texts.is_ascii key app.control_api_key)) [
        | inl e ↦ rw (create_control_simulation, e) (unchanged h s)
        | inr (accepted, e) ↦
            elim (Result-cases (authenticate_control_key key app.control_api_key)) [
              | inr (error, e') ↦ rw (create_control_simulation, e, e') (unchanged h s)
              | inl (_, e') ↦
                  rw (create_control_simulation, e, e')
                    (record {
                      runs = inl refl;
                      notices = inl refl;
                      simulations = inr actor;
                      approvals = inl refl;
                      evidence = inl refl;
                      site = inl refl;
                    })
            ]
      ]

  -- Whatever request is served, of the routes other than health, metrics, meta, the session and
  -- the grid twin, each table is as before unless the request was authenticated and its
  -- principal has a role for it: operator or admin for the runs, the notices, the simulated
  -- writes, the evidence and the site behind the gateway, and approver or admin for the
  -- decisions; or else the request asks for the status of the controller, is authenticated with
  -- any role and presents the control key, and nothing has changed but the state behind the
  -- gateway, as reading its status leaves it.
  pub serve-IsConfined :
      (h : Headers) (request : ApiRequest) (fresh : Fresh) (s : Service S)
      → IsConfined h s (serve app h request fresh s).1
        ⊎ Watches h request s (serve app h request fresh s).1
  unfolding serve create_failure_drill list_notices get_notice list_security_events
      list_dispatch_simulations list_control_simulations list_demo_inputs get_run get_run_result
      read_approval get_timeline get_run_notice list_run_page
  serve-IsConfined h list_inputs_request fresh s = inl (reads h _ s (λ _. refl))
  serve-IsConfined h (run_request request key) fresh s =
      inl (writes h _ _ s (post_run-IsConfined h request key fresh s))
  serve-IsConfined h (drill_run_request reference sha256 drill key) fresh s =
      inl
        (writes h _ _ s (post_run-IsConfined h (drill_request reference sha256 drill) key fresh s))
  serve-IsConfined h (read_run_request run_id) fresh s = inl (reads h _ s (λ _. refl))
  serve-IsConfined h (read_result_request run_id) fresh s = inl (reads h _ s (λ _. refl))
  serve-IsConfined h (read_approval_request run_id) fresh s = inl (reads h _ s (λ _. refl))
  serve-IsConfined h (timeline_request run_id) fresh s = inl (reads h _ s (λ _. refl))
  serve-IsConfined h (run_notice_request run_id) fresh s = inl (reads h _ s (λ _. refl))
  serve-IsConfined h (run_page_request limit offset) fresh s = inl (reads h _ s (λ _. refl))
  serve-IsConfined h (approval_request run_id request) fresh s =
      inl (writes h _ _ s (post_approval-IsConfined h run_id request fresh s))
  serve-IsConfined h (notice_request request key) fresh s =
      inl (writes h _ _ s (simulate_notice-IsConfined h request key fresh s))
  serve-IsConfined h (dispatch_request run_id request key) fresh s =
      inl (writes h _ _ s (create_dispatch_simulation-IsConfined h run_id request key fresh s))
  serve-IsConfined h (safe_state_request reason key) fresh s =
      inl (writes h _ _ s (emergency-IsConfined h reason key fresh s))
  serve-IsConfined h (simulation_request run_id interval_index key) fresh s =
      inl
        (writes h _ _ s (create_control_simulation-IsConfined h run_id interval_index key fresh s))
  serve-IsConfined h (cancel_request run_id) fresh s =
      inl (writes h _ _ s (post_cancel-IsConfined h run_id fresh s))
  serve-IsConfined h (notice_page_request limit offset) fresh s = inl (reads h _ s (λ _. refl))
  serve-IsConfined h (event_page_request limit offset) fresh s = inl (reads h _ s (λ _. refl))
  serve-IsConfined h (read_notice_request notice_id) fresh s = inl (reads h _ s (λ _. refl))
  serve-IsConfined h (attempt_page_request run_id key limit offset) fresh s =
      inl (reads h _ s (λ _. refl))
  serve-IsConfined h (run_simulations_request run_id key) fresh s = inl (reads h _ s (λ _. refl))
  serve-IsConfined h (status_request key) fresh s = status-Watches h key s
