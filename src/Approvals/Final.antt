-- ===== src/Approvals/Final.antt =====
-- A decision is made once: it is never changed, and answers every later submission for its run.
use text.Mathlib.Text.{◌==◌ as str_eq}
use depotflux_demo.Prelude.{
  ℕ, ◌≡◌, inl, inr, true, false, ◌&&◌, Option, some, List, [], ◌∷◌, ◌++◌, String, ok, err,
  Option-cases, Bool-cases, Result-cases, arith, if◌then◌else◌,
}
use depotflux_demo.Runs.Status.{succeeded, is}
use depotflux_demo.Runs.Json.{Fields, get}
use depotflux_demo.Runs.Row.{RunRow, RunCreateRequest, Runs, find}
use depotflux_demo.Runs.Create.{given}
use depotflux_demo.Runs.History.Final.{perform-Follows}
use depotflux_demo.Approvals.{
  ApprovalCreateRequest, ApprovalRow, Approvals, is_decision, is_same_note, decision_conflict,
  find_approval, resolve_existing, has_passed, payload_of, new_approval, insert_approval,
  decide_run, create_approval,
}
use depotflux_demo.Approvals.Binding.{Step, run_call, decide, step_all}

find_approval-kept :
    (j : ℕ) (db : Approvals) (new row : ApprovalRow)
    → find_approval j db ≡ some row
    → find_approval j (db ++ new ∷ []) ≡ some row
unfolding find_approval
find_approval-kept j [] new row e = cc
find_approval-kept j (old ∷ db) new row e = ground (arith, find_approval-kept j db new row)

-- Every decision of the one table stands in the other.
abbrev Keeps : Approvals → Approvals → Type 0
Keeps db db' =
    (j : ℕ) (row : ApprovalRow) → find_approval j db ≡ some row → find_approval j db' ≡ some row

insert_approval-Keeps :
    (row : ApprovalRow) (request : ApprovalCreateRequest) (decided_by : String) (db : Approvals)
    → Keeps db (insert_approval row request decided_by db).1
unfolding insert_approval
insert_approval-Keeps row request decided_by db j old e =
    ground (arith, find_approval-kept j db row old)

module _ {A : Type 0} where
  decide_run-Keeps :
      (run : RunRow A) (run_id : ℕ) (request : ApprovalCreateRequest) (decided_by : String)
      (new_id now : ℕ) (db : Approvals)
      → Keeps db (decide_run (λ d. d) run run_id request decided_by new_id now db).1
  unfolding decide_run
  decide_run-Keeps run run_id request decided_by new_id now db j old e =
      elim (Bool-cases (is run.status succeeded)) [
        | inr running ↦ rw running e
        | inl finished ↦ elim (Result-cases (has_passed (get "validation" (payload_of run)))) [
          | inr (error, p) ↦ rw (finished, p) e
          | inl (false, p) ↦ rw (finished, p) e
          | inl (true, p) ↦ elim (Option-cases (given run.result_sha256)) [
            | inl missing ↦ rw (finished, p, missing) e
            | inr (sha256, hash) ↦
                rw (finished, p, hash)
                  (insert_approval-Keeps (new_approval run_id request decided_by sha256 new_id now)
                    request decided_by db j old e)
          ]
        ]
      ]

  create_approval-Keeps :
      (runs : Runs A) (run_id : ℕ) (request : ApprovalCreateRequest) (decided_by : String)
      (new_id now : ℕ) (db : Approvals)
      → Keeps db (create_approval (λ d. d) runs run_id request decided_by new_id now db).1
  unfolding create_approval
  create_approval-Keeps runs run_id request decided_by new_id now db j old e =
      elim (Option-cases (find run_id runs)) [
        | inl f ↦ rw (f, create_approval) e
        | inr (run, f) ↦ elim (Option-cases (find_approval run_id db)) [
          | inl new ↦
              rw (f, create_approval)
                (rw new (decide_run-Keeps run run_id request decided_by new_id now db j old e))
          | inr (existing, g) ↦ rw (f, create_approval) (rw g e)
        ]
      ]

module _ {A : Type 0} (fingerprint : RunCreateRequest → String)
    (digest : Fields A → Option String) where
  -- A decision stays in the table, unchanged in every column, whatever calls on the runs and on
  -- the decisions follow.
  pub decision_is_final :
      (calls : List (Step A)) (runs : Runs A) (db : Approvals) (j : ℕ) (row : ApprovalRow)
      → find_approval j db ≡ some row
      → find_approval j (step_all fingerprint digest calls (runs, db)).1 ≡ some row
  decision_is_final [] runs db j row e = e
  decision_is_final (run_call call ∷ calls) runs db j row e = decision_is_final calls _ db j row e
  decision_is_final (decide run_id request decided_by new_id now ∷ calls) runs db j row e =
      decision_is_final calls runs _ j row
        (create_approval-Keeps runs run_id request decided_by new_id now db j row e)

  run_stays :
      (calls : List (Step A)) (runs : Runs A) (db : Approvals) (j : ℕ) (run : RunRow A)
      → find j runs ≡ some run
      → (run' : RunRow A) × (find j (step_all fingerprint digest calls (runs, db)).0 ≡ some run')
  run_stays [] runs db j run e = (run, e)
  run_stays (run_call call ∷ calls) runs db j run e =
      let (run', e', f) = perform-Follows fingerprint digest call runs j run e in
      run_stays calls _ db j run' e'
  run_stays (decide run_id request decided_by new_id now ∷ calls) runs db j run e =
      run_stays calls runs _ j run e

  -- The decision of a run answers every later submission for it: whatever calls on both tables
  -- came between, it is returned where decision, note and operator agree with it, any other
  -- submission is a conflict, and the table of decisions stays as it is.
  pub later_decision :
      (calls : List (Step A)) (runs : Runs A) (db : Approvals) (j : ℕ) (run : RunRow A)
      (row : ApprovalRow)
      → find j runs ≡ some run
      → find_approval j db ≡ some row
      → (request : ApprovalCreateRequest) (decided_by : String) (new_id now : ℕ)
      → let s = step_all fingerprint digest calls (runs, db) in
        create_approval (λ d. d) s.0 j request decided_by new_id now s.1 ≡ (
          if is_decision row.decision request.decision
                && (is_same_note row.note request.note && str_eq row.decided_by decided_by)
              then ok row
              else err decision_conflict,
          s.1,
        )
  unfolding create_approval resolve_existing
  later_decision calls runs db j run row e d request decided_by new_id now =
      let (run', e') = run_stays calls runs db j run e in
      let d' = decision_is_final calls runs db j row d in
      rw (e', create_approval) (rw d' (ground arith))
