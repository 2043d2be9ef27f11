-- ===== src/Worker.antt =====
-- `execute_one` of aggregator_demo/worker.py. The optimizers, the input registry and the texts of
-- exceptions are an interface; what other sessions commit meanwhile is a function argument.
pub mod Texts
pub mod Settles
pub mod Drain
mod Tests
use text.Mathlib.Text.{◌==◌ as str_eq}
use depotflux_demo.Prelude.{
  ℕ, zero, suc, Bool, true, false, not, ◌||◌, Option, none, some, List, [], ◌∷◌, String,
  if◌then◌else◌, Result, ok, err, ◌>>=◌, ◌>>◌, and_then,
}
use depotflux_demo.Prelude.Int.{ℤ, pos}
use depotflux_demo.Floats.{Floats, float_zero}
use depotflux_demo.Runs.Status.{RunStatus, failed, infeasible, timed_out}
use depotflux_demo.Runs.Json.{
  Json, number, string, list, dict, Items, nil, cons, Fields, end, field, get,
}
use depotflux_demo.Runs.Row.{
  OptimizationMode, selfish, altruistic, day_ahead, real_time, RunRow, Runs,
}
use depotflux_demo.Runs.Repository.{
  RunError, data_error, Method, get_row, result, fail, recover_stale, complete, complete_degraded,
}
use depotflux_demo.Runs.Claim.{claim_next}
use depotflux_demo.Approvals.{is_true}
use depotflux_demo.Notices.{NoticeRow, find_by_candidate}

-- What the worker catches. `input_failed` is a `DemoInputError` with its code and text,
-- `unexpected` has the type and the text of any other exception.
pub data WorkError : Type 0 where
  input_failed : String → String → WorkError
  notice_not_found optimization_infeasible optimization_timeout : String → WorkError
  invalid_result not_implemented unexpected : String → WorkError

-- The exceptions whose text the worker takes from elsewhere.
pub data Raised : Type 0 where
  no_notice : ℕ → Raised
  run_failed : RunError → ℕ → Raised
  no_item_assignment not_iterable no_get : Raised

pub record Optimizers ⦃F : Floats⦄ : Type 0 where
  -- `registry.load`
  pub load : String → String → Result WorkError (Fields F.Float)
  -- `optimize_day_ahead` and `optimize_real_time`
  pub solve_day_ahead :
      Fields F.Float → OptimizationMode → Bool → Option F.Float → Result WorkError (Fields F.Float)
  pub solve_real_time :
      Fields F.Float
      → NoticeRow
      → Fields F.Float
      → String
      → OptimizationMode
      → Bool
      → Result WorkError (Fields F.Float)
  pub describe : Raised → String

-- The times of the calls of `execute_one`.
pub record Clock : Type 0 where
  pub recovered_at : ℕ
  pub claimed_at : ℕ
  pub finished_at : ℕ

abbrev pub is_selfish : OptimizationMode → Bool
is_selfish selfish = true
is_selfish altruistic = false

module _ ⦃F : Floats⦄ where
  open F use {Float, of_int, div}

  -- `d[key] = value`
  unfoldable pub set_value : String → Json Float → Fields Float → Fields Float
  set_value key value end = field key value end
  set_value key value (field k v d) =
      let rest = set_value key value d in if str_eq k key then field k value d else field k v rest

  -- `for bus in buses: bus["initial_soc"] = 0.0`; `none` where a bus is no dict
  unfoldable pub drained_buses : Items Float → Option (Items Float)
  drained_buses nil = some nil
  drained_buses (cons (dict bus) buses) =
      let rest = drained_buses buses in
      elim rest [
        | none ↦ none
        | some drained ↦
            some (cons (dict (set_value "initial_soc" (number float_zero) bus)) drained)
      ]
  drained_buses (cons _ buses) = none

  -- The same over `input_data.get("buses", [])`. An empty text or dict has no elements.
  unfoldable pub drained_input : Fields Float → Option (Json Float) → Result Raised (Fields Float)
  drained_input input none = ok input
  drained_input input (some (list buses)) = elim (drained_buses buses) [
    | none ↦ err no_item_assignment
    | some drained ↦ ok (set_value "buses" (list drained) input)
  ]
  drained_input input (some (dict end)) = ok input
  drained_input input (some (dict (field _ _ _))) = err no_item_assignment
  drained_input input (some (string s)) = if str_eq s "" then ok input else err no_item_assignment
  drained_input input (some _) = err not_iterable

  -- `result.get("validation", {}).get("passed") is True`; only a dict has a `get`
  unfoldable pub has_passing_validation : Option (Json Float) → Option Bool
  has_passing_validation none = some false
  has_passing_validation (some (dict fields)) = some (is_true (get "passed" fields))
  has_passing_validation (some _) = none

  module _ (py : Optimizers) where
    -- The input and the time limit of a day-ahead run.
    unfoldable pub prepare_scenario :
        List String → Fields Float → Result WorkError (Fields Float × Option Float)
    prepare_scenario [] input = ok (input, none)
    prepare_scenario (scenario ∷ []) input =
        if str_eq scenario "nominal"
        then ok (input, none)
        else if str_eq scenario "failure_drill:infeasible"
        then elim (drained_input input (get "buses" input)) [
          | ok drained ↦ ok (drained, none)
          | err raised ↦ err (unexpected (py.describe raised))
        ]
        else if str_eq scenario "failure_drill:solver_timeout"
        then ok (input, some (div (of_int (pos 1)) (of_int (pos 1000))))
        else err (not_implemented "the requested day-ahead scenario is not connected to the worker")
    prepare_scenario (_ ∷ _ ∷ _) input =
        err (not_implemented "the requested day-ahead scenario is not connected to the worker")

    -- The branch of a real-time run.
    unfoldable pub optimize_notice :
        RunRow Float → Runs Float → List NoticeRow → Fields Float → Result WorkError (Fields Float)
    optimize_notice run db notices input = elim (find_by_candidate run.id notices) [
      | none ↦ err (notice_not_found (py.describe (no_notice run.id)))
      | some notice ↦ elim (result notice.baseline_run_id db).0 [
        | err error ↦ err (unexpected (py.describe (run_failed error notice.baseline_run_id)))
        | ok baseline ↦ elim baseline.result_payload [
          | none ↦ err (invalid_result "approved baseline result is unavailable")
          | some payload ↦ elim baseline.result_sha256 [
            | none ↦ err (invalid_result "approved baseline result is unavailable")
            | some sha256 ↦
                py.solve_real_time input notice payload sha256 run.request.optimization_mode
                  run.request.v2g_enabled
          ]
        ]
      ]
    ]

    -- The body of the `try`, up to the result.
    unfoldable pub optimize_candidate :
        RunRow Float → Runs Float → List NoticeRow → Result WorkError (Fields Float)
    optimize_candidate run db notices =
        if not (is_selfish run.request.optimization_mode)
        then err (not_implemented "only selfish optimization is connected to the worker")
        else py.load run.request.input_reference run.request.input_sha256 >>= λ input.
            elim run.request.run_type [
              | day_ahead ↦ prepare_scenario run.request.scenario_ids input >>= λ prepared.
                  py.solve_day_ahead prepared.0 run.request.optimization_mode
                    run.request.v2g_enabled prepared.1
              | real_time ↦ optimize_notice run db notices input
            ]

    -- The handlers of the exceptions.
    unfoldable pub handle : ℕ → WorkError → ℕ → Method Float (RunRow Float)
    handle run_id (input_failed code text) now db = fail run_id failed code text now db
    handle run_id (notice_not_found text) now db = fail run_id failed "notice_not_found" text now db
    handle run_id (optimization_infeasible text) now db =
        fail run_id infeasible "optimization_infeasible" text now db
    handle run_id (optimization_timeout text) now db =
        fail run_id timed_out "solver_time_limit" text now db
    handle run_id (invalid_result text) now db =
        fail run_id failed "invalid_optimization_result" text now db
    handle run_id (not_implemented text) now db =
        fail run_id failed "unsupported_run_configuration" text now db
    handle run_id (unexpected text) now db =
        fail run_id failed "unexpected_worker_error" text now db

    -- An exception of `complete` or `complete_degraded` is one of the others. Behind a `DataError`
    -- the session asks for a rollback, and the methods that the handler calls raise.
    unfoldable pub rescue :
        ℕ
        → ℕ
        → Result RunError (RunRow Float) × Runs Float
        → Result RunError (RunRow Float) × Runs Float
    rescue run_id now (ok row, db) = (ok row, db)
    rescue run_id now (err data_error, db) = (err data_error, db)
    rescue run_id now (err error, db) =
        handle run_id (unexpected (py.describe (run_failed error run_id))) now db

    module _ (digest : Fields Float → Option String) where
      -- What becomes of the result.
      unfoldable pub commit_candidate : ℕ → Fields Float → ℕ → Method Float (RunRow Float)
      commit_candidate run_id payload now db =
          elim (has_passing_validation (get "validation" payload)) [
            | none ↦ handle run_id (unexpected (py.describe no_get)) now db
            | some true ↦ rescue run_id now (complete digest run_id payload now db)
            | some false ↦ rescue run_id now (
                complete_degraded digest run_id payload "deterministic_validation_failed"
                  "The solver returned a candidate, but deterministic operational validation did not pass."
                  now db)
          ]

      unfoldable pub settle : ℕ → Result WorkError (Fields Float) → ℕ → Method Float (RunRow Float)
      settle run_id (ok payload) now db = commit_candidate run_id payload now db
      settle run_id (err error) now db = handle run_id error now db

      -- The claimed run; `meanwhile` is what other sessions commit during the optimization.
      unfoldable pub execute_claimed :
          (Runs Float → Runs Float) → List NoticeRow → ℕ → Option (RunRow Float) → Method Float Bool
      execute_claimed meanwhile notices now none db = (ok false, db)
      execute_claimed meanwhile notices now (some run) db =
          and_then (settle run.id (optimize_candidate run db notices) now (meanwhile db))
            λ _ db. and_then (get_row run.id db) λ _ db. (ok true, db)

      unfoldable pub execute_one :
          (ℕ → Runs Float → Runs Float)
          → (Runs Float → Runs Float)
          → List NoticeRow
          → String
          → ℤ
          → Clock
          → Method Float Bool
      execute_one others meanwhile notices worker_id stale_after clock db =
          and_then (recover_stale stale_after clock.recovered_at db) λ _ db.
            and_then (claim_next others worker_id clock.claimed_at db)
              λ claimed db. execute_claimed meanwhile notices clock.finished_at claimed db

      -- The first rounds of the loop of `main`, with nobody else at the table. An exception ends
      -- the process.
      unfoldable pub work_rounds :
          ℕ → List NoticeRow → String → ℤ → (ℕ → Clock) → Method Float (Unit {0})
      work_rounds zero notices worker_id stale_after clock db = (ok tt, db)
      work_rounds (suc rounds) notices worker_id stale_after clock db =
          and_then (execute_one (λ _ t. t) (λ t. t) notices worker_id stale_after (clock rounds) db)
            (λ _ db. work_rounds rounds notices worker_id stale_after clock db)
