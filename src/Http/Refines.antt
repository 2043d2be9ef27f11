-- ===== src/Http/Refines.antt =====
-- The routes on the tables of runs and decisions are sequences of calls of the repositories.
use mathlib.Core.Path.{subst}
use depotflux_demo.Prelude.{
  ℕ, ◌≡◌, refl, sym, ap, ◌∙◌, inl, inr, Bool, true, Option, some, List, [], ◌∷◌, ◌++◌, String,
  Result, ok, err, Bool-cases, Option-cases, Result-cases,
}
use depotflux_demo.Floats.{Floats}
use depotflux_demo.Runs.Json.{Fields}
use depotflux_demo.Runs.Status.{is_terminal}
use depotflux_demo.Runs.Row.{RunCreateRequest, RunRow, Runs, find}
use depotflux_demo.Runs.History.{create_run, cancel, perform, perform_all}
use depotflux_demo.Runs.History.Final.{terminal_run_is_final}
use depotflux_demo.Approvals.{Approvals, find_approval}
use depotflux_demo.Approvals.Binding.{
  AllBound, Step, run_call, decide, step, step_all, decisions_stay_bound,
}
use depotflux_demo.Notices.{
  Notices, NoticeCreateRequest, NoticeCall, is_replannable, replan_request, replan_key,
  create_simulated, link_candidate,
}
use depotflux_demo.Auth.{Principal, Role}
use depotflux_demo.Control.{authenticate_control_key}
use depotflux_demo.Registry.{verify}
use depotflux_demo.Http.{
  Headers, Service, Application, RouteHandler, authenticated_principal, with_principal, with_roles,
  key_accepted,
}
use depotflux_demo.Http.Lists.{
  list_notices, get_notice, list_security_events, list_dispatch_simulations,
  list_control_simulations,
}
use depotflux_demo.Http.Status.{read_controller_status, read_controller_status-StatusRead}
use depotflux_demo.Http.Routes.{
  ApiRequest, Fresh, DispatchCreateRequest, drill_request, list_inputs_request, run_request,
  drill_run_request, read_run_request, read_result_request, read_approval_request, timeline_request,
  run_notice_request, run_page_request, approval_request, notice_request, dispatch_request,
  safe_state_request, simulation_request, cancel_request, notice_page_request, event_page_request,
  read_notice_request, attempt_page_request, run_simulations_request, status_request, serve,
  serve_all, list_demo_inputs, get_run, get_run_result, read_approval, get_timeline, get_run_notice,
  list_run_page, post_run, create_failure_drill, post_approval, simulate_notice, post_cancel,
  with_evidence, create_dispatch_simulation, activate_emergency_safe_state,
  create_control_simulation,
}
use depotflux_demo.Http.Confined.{with_roles_lem, with_principal-keeps}

module _ ⦃F : Floats⦄ {S : Type 0} (app : Application S)
    (digest : Fields F.Float → Option String) where
  abbrev tables : Service S → Runs F.Float × Approvals
  tables s = (s.runs, s.approvals)

  -- The tables of runs and decisions of `s'` are those of `s` behind some calls of the repositories.
  abbrev pub IsSteps : Service S → Service S → Type 0
  IsSteps s s' =
      (calls : List (Step F.Float)) × (step_all app.fingerprint digest calls (tables s) ≡ tables s')

  created_runs :
      (later : Notices → Notices) (request : NoticeCreateRequest) (call : NoticeCall)
      (baseline : RunRow F.Float) (notices : Notices)
      (r : Result _ (RunRow F.Float × Bool) × Runs F.Float)
      → (link_candidate app.text_length later request call baseline notices r).1.0 ≡ r.1
  unfolding link_candidate
  created_runs later request call baseline notices (ok (candidate, created), runs) = refl
  created_runs later request call baseline notices (err e, runs) = refl

  create_simulated-steps :
      (request : NoticeCreateRequest) (call : NoticeCall) (approvals : Approvals)
      (runs : Runs F.Float) (notices : Notices)
      → (calls : List (Step F.Float)) × (step_all app.fingerprint digest calls (runs, approvals) ≡ (
        (create_simulated app.text_length app.fingerprint
            (λ r. r)
            (λ n. n)
            request
            call
            approvals
            runs
            notices).1.0,
        approvals,
      ))
  unfolding perform create_simulated
  create_simulated-steps request call approvals runs notices =
      elim (Option-cases (find request.baseline_run_id runs)) [
        | inl e ↦ ([], rw (create_simulated, e) refl)
        | inr (baseline, e) ↦
            elim (Bool-cases (is_replannable baseline (find_approval baseline.id approvals))) [
              | inr unfit ↦ ([], rw (create_simulated, e, unfit) refl)
              | inl fit ↦ (
                run_call (
                      create_run (replan_request baseline request.scenario) call.created_by
                        (replan_key call.idempotency_key) call.new_run_id call.run_created_at)
                    ∷ [],
                rw (create_simulated, e, fit)
                    (ap (λ r. (r, approvals))
                      (sym (created_runs (λ n. n) request call baseline notices _))),
              )
            ]
      ]

  -- Each handler that writes.
  post_run-IsSteps :
      (request : RunCreateRequest) (key : Option String) (fresh : Fresh) (principal : Principal)
      (s : Service S)
      → IsSteps s (post_run app request key fresh principal s).1
  unfolding post_run perform
  post_run-IsSteps request key fresh principal s =
      elim (Result-cases
        (verify app.files app.entries request.input_reference request.input_sha256)) [
          | inr (error, e) ↦ ([], rw (post_run, e) refl)
          | inl (entry, e) ↦ (
            run_call (create_run request principal.subject key fresh.id fresh.now) ∷ [],
            rw (post_run, e) refl,
          )
        ]

  with_evidence-tables :
      (s : Service S) (r : _ × (_ × S)) → tables (with_evidence app s r).1 ≡ tables s
  unfolding with_evidence
  with_evidence-tables s (outcome, (evidence, site)) = refl

  dispatch-tables :
      (run_id : ℕ) (request : DispatchCreateRequest) (key : Option String) (fresh : Fresh)
      (principal : Principal) (s : Service S)
      → tables (create_dispatch_simulation app run_id request key fresh principal s).1 ≡ tables s
  unfolding create_dispatch_simulation
  dispatch-tables run_id request key fresh principal s =
      elim (Option-cases (key_accepted app.texts.is_ascii key app.control_api_key)) [
        | inl e ↦ rw (create_dispatch_simulation, e) refl
        | inr (accepted, e) ↦ rw (create_dispatch_simulation, e) (with_evidence-tables s _)
      ]

  emergency-tables :
      (reason : String) (key : Option String) (fresh : Fresh) (principal : Principal)
      (s : Service S)
      → tables (activate_emergency_safe_state app reason key fresh principal s).1 ≡ tables s
  unfolding activate_emergency_safe_state
  emergency-tables reason key fresh principal s =
      elim (Option-cases (key_accepted app.texts.is_ascii key app.emergency_api_key)) [
        | inl e ↦ rw (activate_emergency_safe_state, e) refl
        | inr (accepted, e) ↦ rw (activate_emergency_safe_state, e) (with_evidence-tables s _)
      ]

  simulation-tables :
      (run_id interval_index : ℕ) (key : Option String) (fresh : Fresh) (principal : Principal)
      (s : Service S)
      → tables (create_control_simulation app run_id interval_index key fresh principal s).1
        ≡ tables s
  unfolding create_control_simulation
  simulation-tables run_id interval_index key fresh principal s =
      elim (Option-cases (key_accepted app.texts.is_ascii key app.control_api_key)) [
        | inl e ↦ rw (create_control_simulation, e) refl
        | inr (accepted, e) ↦
            elim (Result-cases (authenticate_control_key key app.control_api_key)) [
              | inr (error, e') ↦ rw (create_control_simulation, e, e') refl
              | inl (_, e') ↦ rw (create_control_simulation, e, e') refl
            ]
      ]

  reads :
      (h : Headers) (handler : RouteHandler app) (s : Service S)
      → ((principal : Principal) → (handler principal s).1 ≡ s)
      → IsSteps s (with_principal app h handler s).1
  reads h handler s keeps = ([], ap tables (sym (with_principal-keeps app h handler s keeps)))

  writes :
      (h : Headers) (roles : List Role) (handler : RouteHandler app) (s : Service S)
      → ((principal : Principal) → IsSteps s (handler principal s).1)
      → IsSteps s (with_roles app h roles handler s).1
  writes h roles handler s handled =
      with_roles_lem app (λ r. IsSteps s r.1) h roles handler s (λ a. ([], refl))
        (λ actor. handled actor.principal)

  status-IsSteps :
      (h : Headers) (key : Option String) (s : Service S)
      → IsSteps s (with_principal app h (λ _. read_controller_status app key) s).1
  unfolding with_principal
  status-IsSteps h key s = elim (Result-cases (authenticated_principal app h)) [
    | inr (error, e) ↦ rw (with_principal, e) ([], refl)
    | inl (principal, e) ↦
        rw (with_principal, e)
          (elim (read_controller_status-StatusRead app key s) [
            | inl same ↦ ([], ap tables (sym same))
            | inr reading ↦ ([], ap tables (sym reading.left))
          ])
  ]

  -- One request is some calls of the repositories.
  serve-IsSteps :
      (h : Headers) (request : ApiRequest) (fresh : Fresh) (s : Service S)
      → IsSteps s (serve app h request fresh s).1
  unfolding serve create_failure_drill list_notices get_notice list_security_events
      list_dispatch_simulations list_control_simulations list_demo_inputs get_run get_run_result
      read_approval get_timeline get_run_notice list_run_page post_approval simulate_notice
      post_cancel perform
  serve-IsSteps h list_inputs_request fresh s = reads h _ s (λ _. refl)
  serve-IsSteps h (run_request request key) fresh s =
      writes h _ _ s (λ p. post_run-IsSteps request key fresh p s)
  serve-IsSteps h (drill_run_request reference sha256 drill key) fresh s =
      writes h _ _ s (λ p. post_run-IsSteps (drill_request reference sha256 drill) key fresh p s)
  serve-IsSteps h (read_run_request run_id) fresh s = reads h _ s (λ _. refl)
  serve-IsSteps h (read_result_request run_id) fresh s = reads h _ s (λ _. refl)
  serve-IsSteps h (read_approval_request run_id) fresh s = reads h _ s (λ _. refl)
  serve-IsSteps h (timeline_request run_id) fresh s = reads h _ s (λ _. refl)
  serve-IsSteps h (run_notice_request run_id) fresh s = reads h _ s (λ _. refl)
  serve-IsSteps h (run_page_request limit offset) fresh s = reads h _ s (λ _. refl)
  serve-IsSteps h (approval_request run_id request) fresh s =
      writes h _ _ s (λ p. (decide run_id request p.subject fresh.id fresh.now ∷ [], refl))
  serve-IsSteps h (notice_request request key) fresh s =
      writes h _ _ s (λ p. create_simulated-steps request _ s.approvals s.runs s.notices)
  serve-IsSteps h (dispatch_request run_id request key) fresh s =
      writes h _ _ s (λ p. ([], sym (dispatch-tables run_id request key fresh p s)))
  serve-IsSteps h (safe_state_request reason key) fresh s =
      writes h _ _ s (λ p. ([], sym (emergency-tables reason key fresh p s)))
  serve-IsSteps h (simulation_request run_id interval_index key) fresh s =
      writes h _ _ s (λ p. ([], sym (simulation-tables run_id interval_index key fresh p s)))
  serve-IsSteps h (cancel_request run_id) fresh s =
      writes h _ _ s (λ p. (run_call (cancel run_id fresh.now) ∷ [], refl))
  serve-IsSteps h (notice_page_request limit offset) fresh s = reads h _ s (λ _. refl)
  serve-IsSteps h (event_page_request limit offset) fresh s = reads h _ s (λ _. refl)
  serve-IsSteps h (read_notice_request notice_id) fresh s = reads h _ s (λ _. refl)
  serve-IsSteps h (attempt_page_request run_id key limit offset) fresh s = reads h _ s (λ _. refl)
  serve-IsSteps h (run_simulations_request run_id key) fresh s = reads h _ s (λ _. refl)
  serve-IsSteps h (status_request key) fresh s = status-IsSteps h key s

  step_all-append :
      (calls more : List (Step F.Float)) (t : Runs F.Float × Approvals)
      → step_all app.fingerprint digest (calls ++ more) t
        ≡ step_all app.fingerprint digest more (step_all app.fingerprint digest calls t)
  step_all-append [] more t = refl
  step_all-append (call ∷ calls) more t =
      step_all-append calls more (step app.fingerprint digest call t)

  -- Whatever requests are served one after the other, the tables of runs and decisions are
  -- those that some sequence of calls of the two repositories leaves.
  pub serve_all-IsSteps :
      (requests : List (Headers × ApiRequest × Fresh)) (s : Service S)
      → IsSteps s (serve_all app requests s)
  unfolding serve_all
  serve_all-IsSteps [] s = ([], refl)
  serve_all-IsSteps ((h, request, fresh) ∷ rest) s =
      let (calls, e) = serve-IsSteps h request fresh s in
      let (more, e') = serve_all-IsSteps rest (serve app h request fresh s).1 in
      (
        calls ++ more,
        step_all-append calls more (tables s) ∙ ap (step_all app.fingerprint digest more) e ∙ e',
      )

  -- If every decision of the service belongs to a run that succeeded, passed its validation and
  -- has the result hash of the decision, this is still so after any sequence of requests.
  pub serve_all-AllBound :
      (requests : List (Headers × ApiRequest × Fresh)) (s : Service S)
      → AllBound s.runs s.approvals
      → AllBound (serve_all app requests s).runs (serve_all app requests s).approvals
  serve_all-AllBound requests s bound =
      let (calls, e) = serve_all-IsSteps requests s in
      subst (λ t. AllBound t.0 t.1) e
        (decisions_stay_bound app.fingerprint digest calls (tables s) bound)

  finished_stays :
      (calls : List (Step F.Float)) (t : Runs F.Float × Approvals) (run_id : ℕ)
      (row : RunRow F.Float)
      → find run_id t.0 ≡ some row
      → is_terminal row.status ≡ true
      → find run_id (step_all app.fingerprint digest calls t).0 ≡ some row
  unfolding perform_all
  finished_stays [] t run_id row e h = e
  finished_stays (run_call call ∷ calls) t run_id row e h =
      finished_stays calls (step app.fingerprint digest (run_call call) t) run_id row
        (terminal_run_is_final app.fingerprint digest (call ∷ []) t.0 run_id row e h) h
  finished_stays (decide run_id' request decided_by new_id now ∷ calls) t run_id row e h =
      finished_stays calls
        (step app.fingerprint digest (decide run_id' request decided_by new_id now) t) run_id row e
        h

  -- A run of the service that has reached a terminal state is still there after any sequence of
  -- requests, unchanged in every column.
  pub serve_all-terminal_run :
      (requests : List (Headers × ApiRequest × Fresh)) (s : Service S) (run_id : ℕ)
      (row : RunRow F.Float)
      → find run_id s.runs ≡ some row
      → is_terminal row.status ≡ true
      → find run_id (serve_all app requests s).runs ≡ some row
  serve_all-terminal_run requests s run_id row e h =
      let (calls, e') = serve_all-IsSteps requests s in
      subst (λ t. find run_id t.0 ≡ some row) e' (finished_stays calls (tables s) run_id row e h)
