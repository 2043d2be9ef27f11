-- ===== src/Samples.antt =====
-- Concrete rows and conversions that the tests share.
use depotflux_demo.Prelude.{true, none, some, List, [], ◌∷◌, Option}
use depotflux_demo.Prelude.Int.{ℤ, pos, ◌+ℤ◌}
use depotflux_demo.Floats.Fixed.{fixed}
use depotflux_demo.Runs.Status.{succeeded}
use depotflux_demo.Runs.Json.{Json, flag, number, list, dict, nil, cons, Fields, end, field}
use depotflux_demo.Runs.Row.{day_ahead, selfish, RunRow}
use depotflux_demo.Approvals.{approved, ApprovalRow}
use depotflux_demo.Schedule.{Conversions}

-- The conversions of numbers; every other value raises.
abbrev pub float_of : Json ℤ → Option ℤ
float_of (number x) = some x
float_of _ = none

abbrev pub sum_of : List ℤ → ℤ
sum_of [] = pos 0
sum_of (x ∷ xs) = x +ℤ sum_of xs

abbrev pub minutes : Json ℤ → Option ℤ
minutes _ = some (pos 15)

abbrev pub numeric : Conversions ⦃F = fixed⦄
numeric = record { to_float = float_of; to_int = minutes; sum = sum_of }

-- A run that succeeded, with any payload.
abbrev pub finished_run : {A : Type 0} → Fields A → RunRow A
finished_run payload = record {
  id = 3;
  idempotency_key = none;
  request_fingerprint = "f";
  status = succeeded;
  request = record {
    run_type = day_ahead;
    optimization_mode = selfish;
    input_reference = "depot";
    input_sha256 = "";
    v2g_enabled = true;
    scenario_ids = [];
  };
  requested_by = "ann";
  created_at = 10;
  updated_at = 20;
  started_at = some 11;
  completed_at = some 20;
  failure_code = none;
  failure_message = none;
  worker_id = some "w";
  heartbeat_at = some 20;
  recovery_count = 0;
  last_recovered_at = none;
  solver_name = none;
  result_sha256 = some "d";
  result_payload = some payload;
}

-- One interval that buys 25 kWh, over 15 minutes, at a site of one charger of 150 kW.
abbrev pub candidate : RunRow ℤ
candidate = finished_run (
    field "validation" (dict (field "passed" (flag true) end)) (
      field "w_buy" (list (cons (number (pos 250_000_000)) nil))
        (field "w_sell" (list (cons (number (pos 0)) nil)) end)))

abbrev pub input : Fields ℤ
input = field "timestep_minutes" (number (pos 150_000_000)) (
    field "chargers" (list (cons (dict (field "charger_kw" (number (pos 1_500_000_000)) end)) nil))
      end)

abbrev pub approval : ApprovalRow
approval = record {
  id = 9;
  run_id = 3;
  decision = approved;
  decided_by = "ann";
  result_sha256 = "d";
  note = none;
  created_at = 30;
}
