-- ===== src/Approvals/Tests.antt =====
-- Decisions on a concrete run, and the theorems at concrete inputs.
use depotflux_demo.Prelude.{ℕ, ◌≡◌, refl, true, Option, none, some, List, [], ◌∷◌, String, ok, err}
use depotflux_demo.Runs.Status.{succeeded}
use depotflux_demo.Runs.Json.{flag, dict, Fields, end, field, get}
use depotflux_demo.Runs.Row.{day_ahead, selfish, RunCreateRequest, RunRow, find}
use depotflux_demo.Runs.Create.{given}
use depotflux_demo.Runs.History.{cancel, claim}
use depotflux_demo.Approvals.{
  approved, rejected, decision_conflict, ApprovalCreateRequest, ApprovalRow, find_approval,
  has_passed, is_decided, new_approval, insert_approval, decide_run, create_approval,
}
use depotflux_demo.Approvals.Binding.{
  AllBound, Step, run_call, decide, step_all, decisions_stay_bound,
}
use depotflux_demo.Approvals.Final.{later_decision}

abbrev fingerprint : RunCreateRequest → String
fingerprint _ = "f"

abbrev digest : Fields ℕ → Option String
digest _ = some "d"

abbrev done : RunRow ℕ
done = record {
  id = 3;
  idempotency_key = none;
  request_fingerprint = "f";
  status = succeeded;
  request = record {
    run_type = day_ahead;
    optimization_mode = selfish;
    input_reference = "depot";
    input_sha256 = "";
    v2g_enabled = true;
    scenario_ids = [];
  };
  requested_by = "ann";
  created_at = 10;
  updated_at = 20;
  started_at = some 11;
  completed_at = some 20;
  failure_code = none;
  failure_message = none;
  worker_id = some "w";
  heartbeat_at = some 20;
  recovery_count = 0;
  last_recovered_at = none;
  solver_name = none;
  result_sha256 = some "d";
  result_payload = some (field "validation" (dict (field "passed" (flag true) end)) end);
}

abbrev yes : ApprovalCreateRequest
yes = record { decision = approved; note = none }

abbrev no : ApprovalCreateRequest
no = record { decision = rejected; note = none }

abbrev decision : ApprovalRow
decision = record {
  id = 9;
  run_id = 3;
  decision = approved;
  decided_by = "ann";
  result_sha256 = "d";
  note = none;
  created_at = 30;
}

approves : create_approval (λ d. d) (done ∷ []) 3 yes "ann" 9 30 [] ≡ (ok decision, decision ∷ [])
unfolding create_approval find find_approval decide_run has_passed get given insert_approval
    new_approval is_decided
approves = refl

abbrev calls : List (Step ℕ)
calls = decide 3 no "bob" 10 31 ∷ run_call (cancel 3 32) ∷ run_call (claim "v" 33) ∷ []

decisions_stay_bound_example :
    AllBound
      (step_all fingerprint digest (decide 3 yes "ann" 9 30 ∷ calls) (done ∷ [], [])).0
      (step_all fingerprint digest (decide 3 yes "ann" 9 30 ∷ calls) (done ∷ [], [])).1
unfolding find_approval
decisions_stay_bound_example =
    decisions_stay_bound fingerprint digest (decide 3 yes "ann" 9 30 ∷ calls) (done ∷ [], [])
      (λ run_id row e. cc e)

later_decision_example :
    create_approval
      (λ d. d)
      (step_all fingerprint digest calls (done ∷ [], decision ∷ [])).0
      3
      no
      "ann"
      11
      40
      (step_all fingerprint digest calls (done ∷ [], decision ∷ [])).1
    ≡ (err decision_conflict, (step_all fingerprint digest calls (done ∷ [], decision ∷ [])).1)
unfolding find_approval find
later_decision_example =
    later_decision fingerprint digest calls (done ∷ []) (decision ∷ []) 3 done decision refl refl no
      "ann" 11 40
