-- ===== src/Notices/Retry.antt =====
-- What a repeated submission of a notice does.
use mathlib.Core.Path.{subst}
use text.Mathlib.Text.{◌==◌ as str_eq}
use text.Mathlib.TextEquality.{eq_iff}
use text.Mathlib.TextLemmas.{append-eq-nil_iff}
use depotflux_demo.Prelude.{
  ℕ, ◌≡◌, ◌≢◌, refl, sym, ap, ◌∙◌, Bool, true, false, Option, some, String, ◌<>◌, ◌==◌, ==_iff,
  Result, ok, arith,
}
use depotflux_demo.Floats.{Floats}
use depotflux_demo.Runs.Status.{is_terminal}
use depotflux_demo.Runs.Row.{RunCreateRequest, RunRow, Runs, find}
use depotflux_demo.Runs.Repository.{RunError}
use depotflux_demo.Runs.Create.{create}
use depotflux_demo.Runs.Create.Retry.{create_retry}
use depotflux_demo.Runs.History.Final.{create-Evolves}
use depotflux_demo.Approvals.{Approvals, find_approval}
use depotflux_demo.Notices.{
  is_scenario, NoticeRow, NoticeCreateRequest, NoticeCall, replan_key, Notices, is_replannable,
  replan_request, link_notice, link_candidate, create_simulated,
}
use depotflux_demo.Notices.Linked.{IsLinked, is_scenario_refl}
use depotflux_demo.Notices.Replan.{is_replannable_lem, steps}

module _ ⦃F : Floats⦄ where
  full_key : (key : String) → ("replan:" <> key) ≢ ""
  full_key key e = absurd (differ ((eq_iff "replan:" "").1 (append-eq-nil_iff.0 e).0))
    where
      differ : false ≡ true → ⊥
      differ p = cc p

  linked_again :
      (text_length : String → ℕ) (later : Notices → Notices) (request : NoticeCreateRequest)
      (call : NoticeCall) (baseline candidate : RunRow F.Float) (created : Bool)
      (notice : NoticeRow) (notices : Notices)
      → IsLinked request candidate.id notice notices
      → link_notice text_length later request call baseline candidate created notices
        ≡ (ok notice, notices)
  unfolding link_notice
  linked_again text_length later request call baseline candidate created notice notices linked =
      let same : (notice.baseline_run_id == request.baseline_run_id) ≡ true =
        (==_iff notice.baseline_run_id request.baseline_run_id).1 linked.same_baseline in
      let agreed : is_scenario notice.scenario request.scenario ≡ true =
        subst (λ x. is_scenario notice.scenario x ≡ true) linked.same_scenario
          (is_scenario_refl notice.scenario) in
      rw (linked.held, link_notice) (rw same (rw agreed refl))

  -- A submission that was answered, and a later one with its key.
  module _ (text_length : String → ℕ) (fingerprint : RunCreateRequest → String) where
    -- The baseline is as it was, behind the creation of the candidate.
    baseline_kept :
        (request : NoticeCreateRequest) (approvals : Approvals) (runs runs' : Runs F.Float)
        (baseline : RunRow F.Float) (run_request : RunCreateRequest) (user : String)
        (key : Option String) (new_id now : ℕ) (answer : Result RunError (RunRow F.Float × Bool))
        → find request.baseline_run_id runs ≡ some baseline
        → is_replannable baseline (find_approval baseline.id approvals) ≡ true
        → create fingerprint (λ t. t) run_request user key new_id now runs ≡ (answer, runs')
        → find request.baseline_run_id runs' ≡ some baseline
    unfolding is_terminal
    baseline_kept request approvals runs runs' baseline run_request user key new_id now answer found
          replannable submitted =
        let (kept, held, follows) =
          (create-Evolves fingerprint run_request user key new_id now runs).follows
            request.baseline_run_id baseline found in
        let done = (is_replannable_lem approvals baseline replannable).has_succeeded in
        sym (ap (λ x. find request.baseline_run_id x.1) submitted)
        ∙ held
        ∙ ap some (follows.terminal_fixed (ground (arith, done)))

    -- After a notice with an idempotency key was answered, with no other session at the runs
    -- inside, the same request with this key is answered by the same notice, whoever sends
    -- it, and changes neither the runs nor the notices.
    pub create_simulated_retry :
        (later later' : Notices → Notices) (others' : Runs F.Float → Runs F.Float)
        (request : NoticeCreateRequest) (call call' : NoticeCall) (key : String)
        (approvals : Approvals) (runs runs' : Runs F.Float) (notices notices' : Notices)
        (notice : NoticeRow)
        → call.idempotency_key ≡ some key
        → call'.idempotency_key ≡ some key
        → create_simulated text_length fingerprint
            (λ t. t)
            later
            request
            call
            approvals
            runs
            notices
          ≡ (ok notice, (runs', notices'))
        → create_simulated text_length fingerprint others' later' request call' approvals runs'
            notices'
          ≡ (ok notice, (runs', notices'))
    unfolding create_simulated link_candidate replan_key link_notice
    create_simulated_retry later later' others' request call call' key approvals runs runs' notices
          notices' notice k k' answered =
        let s =
          steps text_length fingerprint (λ t. t) later request call approvals runs runs' notices
            notices' notice answered in
        let wanted = replan_request s.baseline request.scenario in
        let kept =
          baseline_kept request approvals runs runs' s.baseline wanted call.created_by
            (replan_key call.idempotency_key) call.new_run_id call.run_created_at _ s.baseline_found
            s.replannable s.submitted in
        let submitted =
          subst
            (λ o.
              create fingerprint (λ t. t) wanted call.created_by o call.new_run_id
                call.run_created_at runs
              ≡ (ok (s.candidate, s.created), runs'))
            (ap replan_key k) s.submitted in
        let again =
          create_retry fingerprint (λ t. t) others' wanted wanted call.created_by call'.created_by
            ("replan:" <> key) call.new_run_id call'.new_run_id call.run_created_at
            call'.run_created_at runs runs' s.candidate s.created (full_key key) submitted in
        let equal : str_eq (fingerprint wanted) (fingerprint wanted) ≡ true =
          (eq_iff (fingerprint wanted) (fingerprint wanted)).1 refl in
        rw (kept, create_simulated)
          (rw s.replannable (
            rw k' (
              rw again (
                rw equal (
                  ap (λ l. (l.0, (runs', l.1)))
                    (linked_again text_length later' request call' s.baseline s.candidate false
                      notice notices' s.linked))))))
