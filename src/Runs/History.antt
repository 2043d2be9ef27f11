-- ===== src/Runs/History.antt =====
-- Any sequence of calls on the table of runs.
pub mod Final
use depotflux_demo.Prelude.{
  ℕ, ◌+◌, ◌≡◌, refl, sym, ap, ◌∙◌, Bool, true, false, Option, none, some, List, [], ◌∷◌, ◌++◌,
  String, ◌==◌, if◌then◌else◌, Result, ok, err, and_then, Option-cases, Bool-cases, inl, inr, arith,
}
use mathlib.Core.Path.{subst}
use depotflux_demo.Prelude.Int.{ℤ}
use depotflux_demo.Runs.Status.{RunStatus, queued, is_terminal, is_allowed}
use depotflux_demo.Runs.Json.{Fields}
use depotflux_demo.Runs.Row.{RunCreateRequest, RunRow, Runs, find, store}
use depotflux_demo.Runs.Repository.{
  RunError, transition, request_cancellation, fail, recover_stale, complete, complete_degraded,
}
use depotflux_demo.Runs.Claim.{claimed, queued_row, claim_rounds, claim_next}
use depotflux_demo.Runs.Create.{
  new_row, is_taken, given, after_collision, existing_run, insert_row, create,
}

-- The calls that change the table. Sessions interleave call by call here, so `create` and
-- `claim_next` meet no other session inside.
pub data Call (A : Type 0) : Type 0 where
  create_run : RunCreateRequest → String → Option String → ℕ → ℕ → Call A
  claim : String → ℕ → Call A
  finish : ℕ → Fields A → ℕ → Call A
  finish_degraded : ℕ → Fields A → String → String → ℕ → Call A
  fail_run : ℕ → RunStatus → String → String → ℕ → Call A
  recover : ℤ → ℕ → Call A
  cancel : ℕ → ℕ → Call A
  move : ℕ → RunStatus → Option String → Option String → ℕ → Call A

module _ {A : Type 0} (fingerprint : RunCreateRequest → String)
    (digest : Fields A → Option String) where
  unfoldable pub perform : Call A → Runs A → Runs A
  perform (create_run request user key new_id now) db =
      (create fingerprint (λ t. t) request user key new_id now db).1
  perform (claim worker_id now) db = (claim_next (λ _ t. t) worker_id now db).1
  perform (finish run_id payload now) db = (complete digest run_id payload now db).1
  perform (finish_degraded run_id payload code message now) db =
      (complete_degraded digest run_id payload code message now db).1
  perform (fail_run run_id status code message now) db = (fail run_id status code message now db).1
  perform (recover stale_after now) db = (recover_stale stale_after now db).1
  perform (cancel run_id now) db = (request_cancellation run_id now db).1
  perform (move run_id target code message now) db =
      (transition run_id target code message now db).1

  unfoldable pub perform_all : List (Call A) → Runs A → Runs A
  perform_all [] db = db
  perform_all (call ∷ calls) db = perform_all calls (perform call db)
