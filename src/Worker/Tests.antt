-- ===== src/Worker/Tests.antt =====
-- A worker with two queued runs, and the theorems at concrete inputs.
use depotflux_demo.Prelude.{refl, inl, inr, true, none, some, [], ◌∷◌, String, Option, ok, err}
use depotflux_demo.Prelude.Int.{ℤ, pos}
use depotflux_demo.Floats.Fixed.{fixed}
use depotflux_demo.Runs.Status.{queued, succeeded, is_terminal}
use depotflux_demo.Runs.Json.{get, flag, dict, Fields, end, field}
use depotflux_demo.Runs.Row.{day_ahead, selfish, RunRow, Runs, find, store}
use depotflux_demo.Runs.Repository.{
  get_row, recover_rows, is_stale, text_length, fits, names_solver,
}
use depotflux_demo.Runs.Claim.{
  claimed, queued_row, is_before, oldest_queued, read_claimed, claim_rounds, claim_next,
}
use depotflux_demo.Worker.{Optimizers, Clock, optimization_timeout, execute_one, work_rounds}
use depotflux_demo.Worker.Settles.{Executed, execute_one-Executed}
use depotflux_demo.Worker.Texts.{ShortTexts}
use depotflux_demo.Worker.Drain.{Drained, queued_runs, work_rounds-Drained}

abbrev first : RunRow ℤ
first = record {
  id = 1;
  idempotency_key = none;
  request_fingerprint = "f";
  status = queued;
  request = record {
    run_type = day_ahead;
    optimization_mode = selfish;
    input_reference = "depot";
    input_sha256 = "";
    v2g_enabled = true;
    scenario_ids = [];
  };
  requested_by = "ann";
  created_at = 10;
  updated_at = 10;
  started_at = none;
  completed_at = none;
  failure_code = none;
  failure_message = none;
  worker_id = none;
  heartbeat_at = none;
  recovery_count = 0;
  last_recovered_at = none;
  solver_name = none;
  result_sha256 = none;
  result_payload = none;
}

abbrev second : RunRow ℤ
second = record first { id = 2; created_at = 11 }

abbrev finished : RunRow ℤ
finished = record first { id = 3; status = succeeded; completed_at = some 20 }

abbrev table : Runs ℤ
table = second ∷ first ∷ finished ∷ []

-- Every day-ahead run passes; a real-time run reaches the time limit.
abbrev solver : Optimizers ⦃F = fixed⦄
solver = record {
  load = λ _ _. ok end;
  solve_day_ahead = λ _ _ _ _. ok (field "validation" (dict (field "passed" (flag true) end)) end);
  solve_real_time = λ _ _ _ _ _ _. err (optimization_timeout "time limit");
  describe = λ _. "error";
}

short_texts : ShortTexts ⦃F = fixed⦄ solver
unfolding text_length fits names_solver get
short_texts = record {
  load_short = λ reference sha256. tt;
  day_ahead_short = λ input mode v2g limit. refl;
  real_time_short = λ input notice payload sha256 mode v2g. refl;
  describes_short = λ raised. refl;
}

abbrev digest : Fields ℤ → Option String
digest _ = some "d"

abbrev clock : Clock
clock = record { recovered_at = 30; claimed_at = 31; finished_at = 32 }

abbrev taken : RunRow ℤ
taken = claimed "w" 31 first

execute_one-Executed_example :
    Executed 1
      (second ∷ taken ∷ finished ∷ [])
      (execute_one solver digest (λ _ t. t) (λ t. t) [] "w" (pos 1800) clock table)
unfolding recover_rows is_stale claim_next claim_rounds read_claimed get_row oldest_queued
    queued_row is_before claimed find store
execute_one-Executed_example =
    execute_one-Executed solver short_texts digest (λ _ t. t) (λ t. t) [] "w" 1800 clock table
      (second ∷ taken ∷ finished ∷ []) taken taken refl refl (inl refl)

work_rounds-Drained_example :
    Drained (work_rounds solver digest 2 [] "w" (pos 1800) (λ _. clock) table)
unfolding find is_terminal queued_runs
work_rounds-Drained_example =
    work_rounds-Drained solver short_texts digest [] "w" 1800 2 (λ _. clock) table
      (refl, (refl, (refl, tt))) (inl refl, (inl refl, (inr refl, tt))) refl
