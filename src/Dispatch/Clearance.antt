-- ===== src/Dispatch/Clearance.antt =====
-- What a call has passed before the gateway hears of it.
use mathlib.Core.Path.{subst}
use depotflux_demo.Prelude.{
  ℕ, ◌≤◌, ◌≡◌, sym, ap, ◌∙◌, ◌⊎◌, inl, inr, Bool, true, Option, some, List, [], String,
  Option-cases,
}
use depotflux_demo.Floats.{Floats}
use depotflux_demo.Runs.Status.{succeeded}
use depotflux_demo.Runs.Json.{flag, list, dict, Fields, Items, get}
use depotflux_demo.Runs.Row.{RunRow, Runs, find}
use depotflux_demo.Runs.Create.{given}
use depotflux_demo.Approvals.{ApprovalRow, Approvals, approved, find_approval}
use depotflux_demo.Approvals.Binding.{is_succeeded}
use depotflux_demo.Schedule.{Conversions, items_length, result_of, as_list, validation_passed}
use depotflux_demo.Dispatch.Evidence.{Check, EvidenceLog, Submission, for_interval}
use depotflux_demo.Dispatch.Gate.{SupervisoryGateway, Credential}
use depotflux_demo.Dispatch.Checks.{
  both, is_approved_lem, is_bound_lem, validation_passed_lem, as_list_lem, approved_series_lem,
}
use depotflux_demo.Dispatch.{
  is_bound, check_envelope, approved_series, site_setpoint, derive_setpoint, check_horizon,
  check_validation, check_run, dispatch_submission, dispatch_interval,
}
use depotflux_demo.Dispatch.Gated.{
  Transmitted, Gated, unmoved-Gated, require-Gated, reject_common-Gated, reject_credential-Gated,
  transmit-Gated,
}

-- Everything that the policy asks of a call, and the one call of the gateway behind it.
pub record IsCleared ⦃F : Floats⦄ {S : Type 0} (py : Conversions)
    (load : String → String → Option (Fields F.Float)) (gateway : Option (SupervisoryGateway S))
    (runs : Runs F.Float) (approvals : Approvals) (sub : Submission) (expires : ℕ)
    (credential : Credential) (run_id interval_index : ℕ) (s s' : S) : Type 0 where
  pub run : RunRow F.Float
  pub approval : ApprovalRow
  pub validation : Fields F.Float
  pub buy : Items F.Float
  pub sell : Items F.Float
  pub input : Fields F.Float
  pub setpoint_kw : F.Float
  pub capacity_kw : F.Float
  pub credential_configured : credential.configured ≡ true
  pub credential_accepted : credential.accepted ≡ true
  pub run_found : find run_id runs ≡ some run
  pub run_succeeded : run.status ≡ succeeded
  pub approval_found : find_approval run_id approvals ≡ some approval
  pub approval_given : approval.decision ≡ approved
  pub hash_bound : run.result_sha256 ≡ some approval.result_sha256
  pub validation_found : get "validation" (result_of run) ≡ some (dict validation)
  pub validation_passed : get "passed" validation ≡ some (flag true)
  pub buy_found : get "w_buy" (result_of run) ≡ some (list buy)
  pub sell_found : get "w_sell" (result_of run) ≡ some (list sell)
  pub same_length : items_length buy ≡ items_length sell
  pub in_horizon : interval_index ≤ items_length buy
  pub input_loaded : load run.request.input_reference run.request.input_sha256 ≡ some input
  pub derived : site_setpoint py interval_index buy sell input ≡ some (setpoint_kw, capacity_kw)
  pub setpoint_finite : F.is_finite setpoint_kw ≡ true
  pub within_capacity : F.le (F.abs setpoint_kw) (F.add capacity_kw F.tolerance) ≡ true
  pub transmitted :
      Transmitted gateway sub expires (some approval.result_sha256) setpoint_kw capacity_kw s s'

module _ ⦃F : Floats⦄ {S : Type 0} (py : Conversions)
    (load : String → String → Option (Fields F.Float)) (is_sha256 : String → Bool)
    (gateway : Option (SupervisoryGateway S)) (runs : Runs F.Float) (approvals : Approvals)
    (sub : Submission) (expires : ℕ) (credential : Credential) (run_id interval_index : ℕ)
    (s : S) where
  abbrev Cleared : S → Type 0
  Cleared = IsCleared py load gateway runs approvals sub expires credential run_id interval_index s

  derive_setpoint-Gated :
      (run : RunRow F.Float) (buy sell : Items F.Float) (checks : List Check) (e : EvidenceLog)
      → ((input : Fields F.Float) (setpoint_kw capacity_kw : F.Float)
          → load run.request.input_reference run.request.input_sha256 ≡ some input
          → site_setpoint py interval_index buy sell input ≡ some (setpoint_kw, capacity_kw)
          → F.is_finite setpoint_kw ≡ true
          → F.le (F.abs setpoint_kw) (F.add capacity_kw F.tolerance) ≡ true
          → (s' : S)
          → Transmitted gateway sub expires run.result_sha256 setpoint_kw capacity_kw s s'
          → Cleared s')
      → Gated s Cleared (
          derive_setpoint py load is_sha256 gateway sub expires interval_index run buy sell checks
            (e, s))
  unfolding derive_setpoint check_envelope
  derive_setpoint-Gated run buy sell checks e clear =
      elim (Option-cases (load run.request.input_reference run.request.input_sha256)) [
        | inl missing ↦ rw (missing, derive_setpoint) (unmoved-Gated Cleared _ e s)
        | inr (input, loaded) ↦
            elim (Option-cases (site_setpoint py interval_index buy sell input)) [
              | inl failed ↦ rw (loaded, derive_setpoint) (rw failed (unmoved-Gated Cleared _ e s))
              | inr ((setpoint_kw, capacity_kw), derived) ↦
                  rw (loaded, derive_setpoint)
                    (rw derived (
                      require-Gated Cleared _ _ _ _ checks e s
                        (λ c. reject_common-Gated Cleared sub _ _ _ c e s)
                        (λ h c.
                          let (finite, within) = both _ _ h in
                          elim (transmit-Gated gateway is_sha256 sub expires run.result_sha256
                            setpoint_kw capacity_kw c e s).gate [
                              | inl unmoved ↦ record { gate = inl unmoved }
                              | inr sent ↦ record {
                                gate = inr (
                                    clear input setpoint_kw capacity_kw loaded derived finite within
                                      _ sent);
                              }
                            ])))
            ]
      ]

  check_horizon-Gated :
      (run : RunRow F.Float) (checks : List Check) (e : EvidenceLog)
      → ((buy sell : Items F.Float) (input : Fields F.Float) (setpoint_kw capacity_kw : F.Float)
          → get "w_buy" (result_of run) ≡ some (list buy)
          → get "w_sell" (result_of run) ≡ some (list sell)
          → items_length buy ≡ items_length sell
          → interval_index ≤ items_length buy
          → load run.request.input_reference run.request.input_sha256 ≡ some input
          → site_setpoint py interval_index buy sell input ≡ some (setpoint_kw, capacity_kw)
          → F.is_finite setpoint_kw ≡ true
          → F.le (F.abs setpoint_kw) (F.add capacity_kw F.tolerance) ≡ true
          → (s' : S)
          → Transmitted gateway sub expires run.result_sha256 setpoint_kw capacity_kw s s'
          → Cleared s')
      → Gated s Cleared
          (check_horizon py load is_sha256 gateway sub expires interval_index run checks (e, s))
  unfolding check_horizon
  check_horizon-Gated run checks e clear =
      elim (Option-cases (
        approved_series interval_index (as_list (get "w_buy" (result_of run)))
          (as_list (get "w_sell" (result_of run))))) [
            | inl outside ↦
                rw (outside, check_horizon)
                  (require-Gated Cleared _ _ _ _ checks e s
                    (λ c. reject_common-Gated Cleared sub _ _ _ c e s)
                    (λ _ c. reject_common-Gated Cleared sub _ _ _ c e s))
            | inr ((buy, sell), inside) ↦
                let (b, v, same, within) = approved_series_lem interval_index _ _ buy sell inside in
                rw (inside, check_horizon)
                  (require-Gated Cleared _ _ _ _ checks e s
                    (λ c. reject_common-Gated Cleared sub _ _ _ c e s)
                    (λ _ c. derive_setpoint-Gated run buy sell c e (λ input setpoint_kw capacity_kw.
                      clear buy sell input setpoint_kw capacity_kw (as_list_lem _ buy b)
                        (as_list_lem _ sell v) same within)))
          ]

  check_validation-Gated :
      (run : RunRow F.Float) (row : ApprovalRow) (checks : List Check) (e : EvidenceLog)
      → credential.configured ≡ true
      → credential.accepted ≡ true
      → find run_id runs ≡ some run
      → run.status ≡ succeeded
      → find_approval run_id approvals ≡ some row
      → row.decision ≡ approved
      → run.result_sha256 ≡ some row.result_sha256
      → Gated s Cleared
          (check_validation py load is_sha256 gateway sub expires interval_index run checks (e, s))
  unfolding check_validation
  check_validation-Gated run row checks e c1 c2 found done recorded given bound =
      elim (Option-cases (validation_passed (get "validation" (result_of run)))) [
        | inl broken ↦ rw (broken, check_validation) (unmoved-Gated Cleared _ e s)
        | inr (passed, valid) ↦
            rw (valid, check_validation)
              (require-Gated Cleared _ _ _ _ checks e s
                (λ c. reject_common-Gated Cleared sub _ _ _ c e s)
                (λ h c.
                  let (fields, v, p) =
                    validation_passed_lem (get "validation" (result_of run)) (valid ∙ ap some h) in
                  check_horizon-Gated run c e
                    (λ buy sell input setpoint_kw capacity_kw b l same within loaded derived finite
                        inside s' sent.
                      record {
                        run = run;
                        approval = row;
                        validation = fields;
                        buy = buy;
                        sell = sell;
                        input = input;
                        setpoint_kw = setpoint_kw;
                        capacity_kw = capacity_kw;
                        credential_configured = c1;
                        credential_accepted = c2;
                        run_found = found;
                        run_succeeded = done;
                        approval_found = recorded;
                        approval_given = given;
                        hash_bound = bound;
                        validation_found = v;
                        validation_passed = p;
                        buy_found = b;
                        sell_found = l;
                        same_length = same;
                        in_horizon = within;
                        input_loaded = loaded;
                        derived = derived;
                        setpoint_finite = finite;
                        within_capacity = inside;
                        transmitted =
                            subst
                              (λ o. Transmitted gateway sub expires o setpoint_kw capacity_kw s s')
                              bound sent;
                      })))
      ]

  dispatch_submission-IsCleared :
      (e : EvidenceLog)
      → let s' =
          (dispatch_submission py load is_sha256 gateway runs approvals sub expires run_id
            interval_index credential
            (e, s)).1.1 in
        (s' ≡ s) ⊎ Cleared s'
  unfolding dispatch_submission check_run
  dispatch_submission-IsCleared e = (gated e).gate
    where
      gated :
          (e : EvidenceLog)
          → Gated s Cleared (
              dispatch_submission py load is_sha256 gateway runs approvals sub expires run_id
                interval_index credential
                (e, s))
      gated e = elim (Option-cases (find run_id runs)) [
        | inl missing ↦ rw (missing, dispatch_submission) (unmoved-Gated Cleared _ e s)
        | inr (run, found) ↦
            rw (found, dispatch_submission)
              (require-Gated Cleared _ _ _ _ [] e s
                (λ c. reject_credential-Gated Cleared sub credential _ c e s)
                (λ h1 c.
                  require-Gated Cleared _ _ _ _ c e s
                    (λ c. reject_common-Gated Cleared sub _ _ _ c e s)
                    (λ h2 c.
                      require-Gated Cleared _ _ _ _ c e s
                        (λ c. reject_common-Gated Cleared sub _ _ _ c e s)
                        (λ h3 c.
                          require-Gated Cleared _ _ _ _ c e s
                            (λ c. reject_common-Gated Cleared sub _ _ _ c e s)
                            (λ h4 c.
                              let (c1, c2) = both _ _ h1 in
                              let (row, held, agreed) =
                                is_approved_lem (find_approval run_id approvals) h3 in
                              check_validation-Gated run row c e c1 c2 found
                                (is_succeeded run.status h2) held agreed
                                (is_bound_lem run row
                                  (ap (λ o. is_bound run o) (sym held) ∙ h4)))))))
      ]

module _ ⦃F : Floats⦄ {S : Type 0} where
  -- A dispatch either leaves the state behind the gateway as it is, or passed every policy
  -- check: the credential is configured and accepted, the run exists and succeeded, its
  -- approval was given and has the hash of its result, the result passed validation, the
  -- interval is in the two series of equal length, the setpoint derived from the loaded input
  -- is finite and within the capacity, and the state behind the gateway is the one that a
  -- single call of its dispatch leaves, with the identifiers and times of the submission, this
  -- setpoint and the hash of the approval.
  pub dispatch_interval-IsCleared :
      (py : Conversions) (load : String → String → Option (Fields F.Float))
      (is_sha256 : String → Bool) (gateway : Option (SupervisoryGateway S)) (runs : Runs F.Float)
      (approvals : Approvals) (sub : Submission) (expires run_id interval_index : ℕ)
      (credential : Credential) (e : EvidenceLog) (s : S)
      → let s' =
          (dispatch_interval py load is_sha256 gateway runs approvals sub expires run_id
            interval_index credential
            (e, s)).1.1 in
        (s' ≡ s)
        ⊎ IsCleared py load gateway runs approvals
            (for_interval run_id interval_index sub)
            expires
            credential
            run_id
            interval_index
            s
            s'
  unfolding dispatch_interval
  dispatch_interval-IsCleared py load is_sha256 gateway runs approvals sub expires run_id
        interval_index credential e s =
      dispatch_submission-IsCleared py load is_sha256 gateway runs approvals
        (for_interval run_id interval_index sub) expires credential run_id interval_index s e
