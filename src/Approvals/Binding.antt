-- ===== src/Approvals/Binding.antt =====
-- Decisions are immutable, and stay bound to the result that they were made on.
use depotflux_demo.Prelude.{
  ℕ, ◌≡◌, refl, sym, ◌⊎◌, inl, inr, true, false, Option, none, some, List, [], ◌∷◌, ◌++◌, String,
  ok, Option-cases, Bool-cases, Result-cases, arith,
}
use mathlib.Core.Path.{subst}
use depotflux_demo.Runs.Status.{RunStatus, succeeded, is, is_terminal}
use depotflux_demo.Runs.Json.{Json, null, flag, number, string, list, dict, Fields, get}
use depotflux_demo.Runs.Row.{RunRow, RunCreateRequest, Runs, find}
use depotflux_demo.Runs.Create.{given}
use depotflux_demo.Runs.History.{Call, perform, perform_all}
use depotflux_demo.Runs.History.Final.{terminal_run_is_final}
use depotflux_demo.Approvals.{
  ApprovalCreateRequest, ApprovalRow, Approvals, find_approval, is_true, has_passed, payload_of,
  new_approval, is_decided, insert_approval, decide_run, create_approval,
}

find_approval-append :
    (run_id : ℕ) (db : Approvals) (new row : ApprovalRow)
    → find_approval run_id (db ++ new ∷ []) ≡ some row
    → (find_approval run_id db ≡ some row) ⊎ ((row ≡ new) × (row.run_id ≡ run_id))
unfolding find_approval
find_approval-append j [] new row h = ground arith
find_approval-append j (old ∷ db) new row h = ground (arith, find_approval-append j db new row)

pub is_succeeded : (status : RunStatus) → is status succeeded ≡ true → status ≡ succeeded
is_succeeded status h = ground arith

pub given-hash : (key : Option String) (k : String) → given key ≡ some k → key ≡ some k
unfolding given
given-hash key k h = ground arith

module _ {A : Type 0} where
  pub is_true_lem : (value : Option (Json A)) → is_true value ≡ true → value ≡ some (flag true)
  is_true_lem none h = cc h
  is_true_lem (some null) h = cc h
  is_true_lem (some (flag true)) h = refl
  is_true_lem (some (flag false)) h = cc h
  is_true_lem (some (number _)) h = cc h
  is_true_lem (some (string _)) h = cc h
  is_true_lem (some (list _)) h = cc h
  is_true_lem (some (dict _)) h = cc h

  has_passed_lem :
      (value : Option (Json A))
      → has_passed value ≡ ok true
      → (fields : Fields A) × (value ≡ some (dict fields))
        × (get "passed" fields ≡ some (flag true))
  unfolding has_passed
  has_passed_lem none h = cc h
  has_passed_lem (some null) h = cc h
  has_passed_lem (some (flag _)) h = cc h
  has_passed_lem (some (number _)) h = cc h
  has_passed_lem (some (string _)) h = cc h
  has_passed_lem (some (list _)) h = cc h
  has_passed_lem (some (dict fields)) h =
      (fields, refl, is_true_lem (get "passed" fields) (ground (arith, h)))

  -- The run behind a decision succeeded, passed its validation, and has the hash of the decision.
  abbrev pub IsBound : Runs A → ApprovalRow → Type 0
  IsBound runs row =
      (run : RunRow A) × (find row.run_id runs ≡ some run)
      × (run.status ≡ succeeded)
      × ((fields : Fields A) × (get "validation" (payload_of run) ≡ some (dict fields))
          × (get "passed" fields ≡ some (flag true)))
      × (run.result_sha256 ≡ some row.result_sha256)

  -- Every decision of the table is.
  abbrev pub AllBound : Runs A → Approvals → Type 0
  AllBound runs db =
      (run_id : ℕ) (row : ApprovalRow)
      → find_approval run_id db ≡ some row
      → (row.run_id ≡ run_id) × IsBound runs row

  insert_approval-AllBound :
      (runs : Runs A) (row : ApprovalRow) (request : ApprovalCreateRequest) (decided_by : String)
      (db : Approvals)
      → IsBound runs row
      → AllBound runs db
      → AllBound runs (insert_approval row request decided_by db).1
  unfolding insert_approval
  insert_approval-AllBound runs row request decided_by db b h =
      elim (Bool-cases (is_decided row db)) [
        | inl taken ↦ elim (Option-cases (find_approval row.run_id db)) [
          | inl e ↦ rw (taken, e) h
          | inr (existing, e) ↦ rw (taken, e) h
        ]
        | inr free ↦ rw free (λ run_id found e. elim (find_approval-append run_id db row found e) [
          | inl old ↦ h run_id found old
          | inr (new, own) ↦ (own, subst (λ r. IsBound runs r) (sym new) b)
        ])
      ]

  decide_run-AllBound :
      (runs : Runs A) (run : RunRow A) (run_id : ℕ) (request : ApprovalCreateRequest)
      (decided_by : String) (new_id now : ℕ) (db : Approvals)
      → find run_id runs ≡ some run
      → AllBound runs db
      → AllBound runs (decide_run (λ d. d) run run_id request decided_by new_id now db).1
  unfolding decide_run new_approval
  decide_run-AllBound runs run run_id request decided_by new_id now db e h =
      elim (Bool-cases (is run.status succeeded)) [
        | inr running ↦ rw running h
        | inl finished ↦ elim (Result-cases (has_passed (get "validation" (payload_of run)))) [
          | inr (error, p) ↦ rw (finished, p) h
          | inl (false, p) ↦ rw (finished, p) h
          | inl (true, p) ↦ elim (Option-cases (given run.result_sha256)) [
            | inl missing ↦ rw (finished, p, missing) h
            | inr (sha256, hash) ↦
                rw (finished, p, hash)
                  (insert_approval-AllBound runs
                    (new_approval run_id request decided_by sha256 new_id now) request decided_by db
                    (
                      run,
                      e,
                      is_succeeded run.status finished,
                      has_passed_lem (get "validation" (payload_of run)) p,
                      given-hash run.result_sha256 sha256 hash,
                    )
                    h)
          ]
        ]
      ]

  create_approval-AllBound :
      (runs : Runs A) (run_id : ℕ) (request : ApprovalCreateRequest) (decided_by : String)
      (new_id now : ℕ) (db : Approvals)
      → AllBound runs db
      → AllBound runs (create_approval (λ d. d) runs run_id request decided_by new_id now db).1
  unfolding create_approval
  create_approval-AllBound runs run_id request decided_by new_id now db h =
      elim (Option-cases (find run_id runs)) [
        | inl e ↦ rw (e, create_approval) h
        | inr (run, e) ↦ elim (Option-cases (find_approval run_id db)) [
          | inl new ↦
              rw (e, create_approval)
                (rw new (decide_run-AllBound runs run run_id request decided_by new_id now db e h))
          | inr (existing, old) ↦ rw (e, create_approval) (rw old h)
        ]
      ]

-- A call on either table. The sessions interleave call by call.
pub data Step (A : Type 0) : Type 0 where
  run_call : Call A → Step A
  decide : ℕ → ApprovalCreateRequest → String → ℕ → ℕ → Step A

module _ {A : Type 0} (fingerprint : RunCreateRequest → String)
    (digest : Fields A → Option String) where
  abbrev pub step : Step A → Runs A × Approvals → Runs A × Approvals
  step (run_call call) (runs, db) = (perform fingerprint digest call runs, db)
  step (decide run_id request decided_by new_id now) (runs, db) =
      (runs, (create_approval (λ d. d) runs run_id request decided_by new_id now db).1)

  abbrev pub step_all : List (Step A) → Runs A × Approvals → Runs A × Approvals
  step_all [] s = s
  step_all (call ∷ calls) s = step_all calls (step call s)

  perform-IsBound :
      (call : Call A) (runs : Runs A) (row : ApprovalRow)
      → IsBound runs row
      → IsBound (perform fingerprint digest call runs) row
  unfolding is_terminal perform_all
  perform-IsBound call runs row (run, e, finished, passed, hash) = (
    run,
    terminal_run_is_final fingerprint digest (call ∷ []) runs row.run_id run e (rw finished refl),
    finished,
    passed,
    hash,
  )

  step-AllBound :
      (call : Step A) (s : Runs A × Approvals)
      → AllBound s.0 s.1
      → AllBound (step call s).0 (step call s).1
  step-AllBound (run_call call) (runs, db) h = λ run_id row e.
      let (own, bound) = h run_id row e in (own, perform-IsBound call runs row bound)
  step-AllBound (decide run_id request decided_by new_id now) (runs, db) h =
      create_approval-AllBound runs run_id request decided_by new_id now db h

  -- If every decision of the table belongs to a run that succeeded, passed its validation and
  -- has the result hash of the decision, this is still so after any sequence of calls on the
  -- table of runs and the table of decisions.
  pub decisions_stay_bound :
      (calls : List (Step A)) (s : Runs A × Approvals)
      → AllBound s.0 s.1
      → AllBound (step_all calls s).0 (step_all calls s).1
  decisions_stay_bound [] s h = h
  decisions_stay_bound (call ∷ calls) s h =
      decisions_stay_bound calls (step call s) (step-AllBound call s h)
