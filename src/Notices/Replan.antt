-- ===== src/Notices/Replan.antt =====
-- What an answered notice has found and left.
use mathlib.Core.Path.{subst}
use text.Mathlib.Text.{◌==◌ as str_eq}
use text.Mathlib.TextEquality.{eq_iff}
use depotflux_demo.Prelude.{
  ℕ, ◌≡◌, refl, sym, ap, ◌∙◌, inl, inr, Bool, true, ◌&&◌, none, some, String, Result, ok, err,
  Option-cases, Bool-cases, arith,
}
use depotflux_demo.Floats.{Floats}
use depotflux_demo.Runs.Status.{succeeded, is}
use depotflux_demo.Runs.Row.{RunCreateRequest, RunRow, Runs, find}
use depotflux_demo.Runs.Table.{find-id}
use depotflux_demo.Runs.Repository.{RunError}
use depotflux_demo.Runs.Create.{create}
use depotflux_demo.Approvals.{ApprovalRow, Approvals, approved, find_approval, is_decision}
use depotflux_demo.Notices.{
  NoticeRow, NoticeCreateRequest, NoticeError, unknown_baseline, no_approved_baseline, run_failed,
  NoticeCall, replan_key, Notices, is_replannable, replan_request, link_notice, link_candidate,
  create_simulated,
}
use depotflux_demo.Notices.Linked.{
  IsLinked, Linked, find_by_candidate-candidate, link_notice-Linked,
}

module _ ⦃F : Floats⦄ where
  -- The run is a passing, approved one.
  pub record IsApprovedRun (approvals : Approvals) (baseline : RunRow F.Float) : Type 0 where
    pub approval : ApprovalRow
    pub has_succeeded : baseline.status ≡ succeeded
    pub approval_found : find_approval baseline.id approvals ≡ some approval
    pub approval_given : approval.decision ≡ approved
    pub hash_bound : baseline.result_sha256 ≡ some approval.result_sha256

  replannable_parts :
      (baseline : RunRow F.Float) (approval : ApprovalRow)
      → is_replannable baseline (some approval) ≡ true
      → (sha256 : String) × (baseline.result_sha256 ≡ some sha256)
        × ((is baseline.status succeeded
              && (is_decision approval.decision approved && str_eq approval.result_sha256 sha256))
            ≡ true)
  unfolding is_replannable
  replannable_parts baseline approval h = elim (Option-cases baseline.result_sha256) [
    | inl unhashed ↦ absurd (ground (arith, h, unhashed))
    | inr (sha256, hashed) ↦ (sha256, hashed, ground (arith, h, hashed))
  ]

  unapproved : (baseline : RunRow F.Float) → is_replannable baseline none ≡ true → ⊥
  unfolding is_replannable
  unapproved baseline e = cc e

  pub is_replannable_lem :
      (approvals : Approvals) (baseline : RunRow F.Float)
      → is_replannable baseline (find_approval baseline.id approvals) ≡ true
      → IsApprovedRun approvals baseline
  is_replannable_lem approvals baseline h =
      elim (Option-cases (find_approval baseline.id approvals)) [
        | inl missing ↦
            absurd (unapproved baseline (sym (ap (λ o. is_replannable baseline o) missing) ∙ h))
        | inr (approval, found) ↦
            let (sha256, hashed, tests) =
              replannable_parts baseline approval
                (sym (ap (λ o. is_replannable baseline o) found) ∙ h) in
            record {
              approval = approval;
              has_succeeded = ground (arith, tests);
              approval_found = found;
              approval_given = ground (arith, tests);
              hash_bound =
                  hashed
                  ∙ ap some
                      (sym ((eq_iff approval.result_sha256 sha256).0 (ground (arith, tests))));
            }
      ]

  -- What an answered submission has found and left.
  pub record IsReplan (request : NoticeCreateRequest) (approvals : Approvals) (runs : Runs F.Float)
      (notice : NoticeRow) (notices : Notices) : Type 0 where
    pub baseline : RunRow F.Float
    pub baseline_found : find request.baseline_run_id runs ≡ some baseline
    pub baseline_approved : IsApprovedRun approvals baseline
    pub linked : IsLinked request notice.candidate_run_id notice notices

  module _ (text_length : String → ℕ) where
    link_candidate_lem :
        (later : Notices → Notices) (request : NoticeCreateRequest) (call : NoticeCall)
        (baseline : RunRow F.Float) (notices notices' : Notices)
        (outcome : Result RunError (RunRow F.Float × Bool) × Runs F.Float) (notice : NoticeRow)
        (runs' : Runs F.Float)
        → baseline.id ≡ request.baseline_run_id
        → link_candidate text_length later request call baseline notices outcome
          ≡ (ok notice, (runs', notices'))
        → (candidate : RunRow F.Float) × (created : Bool) × (outcome
            ≡ (ok (candidate, created), runs'))
          × (link_notice text_length later request call baseline candidate created notices
              ≡ (ok notice, notices'))
          × IsLinked request candidate.id notice notices'
    unfolding link_candidate
    link_candidate_lem later request call baseline notices notices' (err error, runs) notice runs'
          named e =
        absurd (failed (ap (λ x. x.0) e))
      where
        failed : ◌≡◌ {A = Result NoticeError NoticeRow} (err (run_failed error)) (ok notice) → ⊥
        failed e = cc e
    link_candidate_lem later request call baseline notices notices' (ok (candidate, created), runs)
          notice runs' named e =
        let linked : link_notice text_length later request call baseline candidate created notices
            ≡ (ok notice, notices') =
          ap (λ x. (x.0, x.1.1)) e in
        let same : runs ≡ runs' = ap (λ x. x.1.0) e in
        (
          candidate,
          created,
          ap (λ r. (ok (candidate, created), r)) same,
          linked,
          subst (Linked request candidate.id) linked (
              link_notice-Linked text_length later request call baseline candidate named created
                notices),
        )

    module _ (fingerprint : RunCreateRequest → String) (others : Runs F.Float → Runs F.Float)
        (later : Notices → Notices) (request : NoticeCreateRequest) (call : NoticeCall)
        (approvals : Approvals) (runs runs' : Runs F.Float) (notices notices' : Notices)
        (notice : NoticeRow)
        (answered : create_simulated text_length fingerprint others later request call approvals
            runs notices
          ≡ (ok notice, (runs', notices'))) where
      -- The answered submission, step by step.
      pub record Steps : Type 0 where
        pub baseline : RunRow F.Float
        pub baseline_found : find request.baseline_run_id runs ≡ some baseline
        pub replannable : is_replannable baseline (find_approval baseline.id approvals) ≡ true
        pub candidate : RunRow F.Float
        pub created : Bool
        pub submitted :
            create fingerprint others
              (replan_request baseline request.scenario)
              call.created_by
              (replan_key call.idempotency_key)
              call.new_run_id
              call.run_created_at
              runs
            ≡ (ok (candidate, created), runs')
        pub linked : IsLinked request candidate.id notice notices'

      pub steps : Steps
      unfolding create_simulated
      steps = elim (Option-cases (find request.baseline_run_id runs)) [
        | inl missing ↦ absurd (unknown (sym (rw (missing, create_simulated) refl) ∙ answered))
        | inr (baseline, found) ↦
            elim (Bool-cases (is_replannable baseline (find_approval baseline.id approvals))) [
              | inr refused ↦ absurd (
                  unapproved_baseline
                    (sym (rw (found, create_simulated) (rw refused refl)) ∙ answered))
              | inl replannable ↦
                  let (candidate, created, submitted, _, linked) =
                    link_candidate_lem later request call baseline notices notices' _ notice runs'
                      (find-id request.baseline_run_id runs baseline found)
                      (sym (rw (found, create_simulated) (rw replannable refl)) ∙ answered) in
                  record {
                    baseline = baseline;
                    baseline_found = found;
                    replannable = replannable;
                    candidate = candidate;
                    created = created;
                    submitted = submitted;
                    linked = linked;
                  }
            ]
      ]
        where
          unknown :
              ◌≡◌ {A = Result NoticeError NoticeRow × (Runs F.Float × Notices)}
                (err unknown_baseline, (runs, notices))
                (ok notice, (runs', notices'))
              → ⊥
          unknown e = cc e

          unapproved_baseline :
              ◌≡◌ {A = Result NoticeError NoticeRow × (Runs F.Float × Notices)}
                (err no_approved_baseline, (runs, notices))
                (ok notice, (runs', notices'))
              → ⊥
          unapproved_baseline e = cc e

      -- A simulated notice is answered only where its baseline run exists, succeeded and
      -- has an approval with the hash of its result, and the notice is then the one that
      -- the table has for its candidate, with the baseline and the scenario of the request.
      pub create_simulated-IsReplan : IsReplan request approvals runs notice notices'
      create_simulated-IsReplan = record {
        baseline = steps.baseline;
        baseline_found = steps.baseline_found;
        baseline_approved = is_replannable_lem approvals steps.baseline steps.replannable;
        linked =
            subst (λ j. IsLinked request j notice notices')
              (sym
                (find_by_candidate-candidate steps.candidate.id notice notices' steps.linked.held))
              steps.linked;
      }
