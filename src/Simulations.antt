-- ===== src/Simulations.antt =====
-- `ControlSimulationRepository` of aggregator_demo/control_repository.py, with
-- `ControlSimulationRow` of aggregator_demo/database.py. The version and the texts of the policy
-- checks, which are the same for every row, are left out.
pub mod Policy
pub mod Once
mod Tests
use depotflux_demo.Prelude.{
  ℕ, zero, suc, ◌+◌, ◌%◌, ◌^◌, Bool, true, false, not, ◌&&◌, ◌||◌, Option, none, some, List, [],
  ◌∷◌, ◌++◌, String, ltb, leb, ◌==◌, if◌then◌else◌, Result, ok, err, guard, raise_if, ◌>>=◌, ◌>>◌,
}
use depotflux_demo.Prelude.Int.{ℤ, pos, negsuc}
use depotflux_demo.Floats.{Floats}
use depotflux_demo.Modbus.Bytes.{Bytes}
use depotflux_demo.Runs.Status.{succeeded, is}
use depotflux_demo.Runs.Json.{Items, Fields, get}
use depotflux_demo.Runs.Row.{RunRow, Runs, find}
use depotflux_demo.Approvals.{ApprovalRow, Approvals, find_approval}
use depotflux_demo.Control.{
  ControlError, site_power_register, validate_site_setpoint, encode_site_power_write,
}
use depotflux_demo.Schedule.{
  Conversions, items_length, result_of, as_list, validation_passed, minutes_of, capacity_of,
  net_energy,
}
use depotflux_demo.Dispatch.{is_approved, is_bound}

-- The scale of the register is 0.1 kW in every row.
pub record SimulationRow ⦃F : Floats⦄ : Type 0 where
  pub id : ℕ
  pub run_id : ℕ
  pub interval_index : ℕ
  pub setpoint_kw : F.Float
  pub unit_id : ℕ
  pub register_address : ℕ
  pub frame : Bytes
  pub result_sha256 : Option String
  pub requested_by : String
  pub created_at : ℕ

-- `failed_check` of the `ControlPolicyError`s of `create`.
pub data FailedCheck : Type 0 where
  immutable_operator_approval successful_candidate approval_result_hash : FailedCheck
  deterministic_validation site_power_series interval_in_horizon : FailedCheck
  input_interval_duration finite_site_setpoint : FailedCheck

-- `RunNotFoundError`, the errors of the policy, of the functions of ot_security.py and of the input
-- registry, `IntegrityError`, and any other exception.
pub data SimulationError : Type 0 where
  unknown_run input_error integrity_error uncaught : SimulationError
  policy_failed : FailedCheck → SimulationError
  control_failed : ControlError → SimulationError

-- A value, or the exception that stands for its absence.
abbrev pub or_raise : {A : Type 0} → Option A → SimulationError → Result SimulationError A
or_raise none e = err e
or_raise (some a) e = ok a

abbrev pub of_control : {A : Type 0} → Result ControlError A → Result SimulationError A
of_control (ok a) = ok a
of_control (err e) = err (control_failed e)

-- `interval_minutes > 0`
abbrev pub is_positive : ℤ → Bool
is_positive (pos zero) = false
is_positive (pos (suc _)) = true
is_positive (negsuc _) = false

-- The arguments of `create` but the run, with the new identifier and the time.
pub record SimulationCall : Type 0 where
  pub interval_index : ℕ
  pub requested_by : String
  pub new_id : ℕ
  pub now : ℕ

module _ ⦃F : Floats⦄ where
  open F use {Float, of_int, mul, div, is_finite}

  abbrev pub Simulations : Type 0
  Simulations = List SimulationRow

  -- `_find`
  unfoldable pub find_simulation : ℕ → ℕ → Simulations → Option SimulationRow
  find_simulation run_id interval_index [] = none
  find_simulation run_id interval_index (row ∷ rows) =
      if row.run_id == run_id && row.interval_index == interval_index
      then some row
      else find_simulation run_id interval_index rows

  unfoldable pub has_simulation_id : ℕ → Simulations → Bool
  has_simulation_id id [] = false
  has_simulation_id id (row ∷ rows) = row.id == id || has_simulation_id id rows

  -- The two series, where they are lists of one length.
  unfoldable pub power_series :
      Option (Items Float) → Option (Items Float) → Option (Items Float × Items Float)
  power_series (some buy) (some sell) =
      if items_length buy == items_length sell then some (buy, sell) else none
  power_series _ _ = none

  unfoldable pub simulation_row : SimulationCall → RunRow Float → Float → Bytes → SimulationRow
  simulation_row call run setpoint_kw frame = record {
    id = call.new_id;
    run_id = run.id;
    interval_index = call.interval_index;
    setpoint_kw = setpoint_kw;
    unit_id = 1;
    register_address = site_power_register;
    frame = frame;
    result_sha256 = run.result_sha256;
    requested_by = call.requested_by;
    created_at = call.now;
  }

  -- The end of the checks: the setpoint and its frame.
  unfoldable pub frame_setpoint :
      SimulationCall → RunRow Float → Float → ℤ → Float → Result SimulationError SimulationRow
  frame_setpoint call run net minutes capacity_kw = do
    setpoint_kw ←
        of_control
          (validate_site_setpoint (div (mul net (of_int (pos 60))) (of_int minutes)) capacity_kw)
    frame ← of_control (encode_site_power_write setpoint_kw (call.interval_index % 2 ^ 16) 1)
    ok (simulation_row call run setpoint_kw frame)

  -- The commit, behind those of other sessions: a run and an interval have one row, and so has
  -- an id.
  unfoldable pub insert_simulation :
      SimulationRow → Simulations → Result SimulationError SimulationRow × Simulations
  insert_simulation row db = elim (find_simulation row.run_id row.interval_index db) [
    | some existing ↦ (ok existing, db)
    | none ↦
        if has_simulation_id row.id db then (err integrity_error, db) else (ok row, db ++ row ∷ [])
  ]

  unfoldable pub commit_simulation :
      (Simulations → Simulations)
      → Result SimulationError SimulationRow
      → Simulations
      → Result SimulationError SimulationRow × Simulations
  commit_simulation others (err error) db = (err error, db)
  commit_simulation others (ok row) db = insert_simulation row (others db)

  module _ (py : Conversions) (load : String → String → Option (Fields Float)) where
    -- The checks on the input.
    unfoldable pub check_input :
        SimulationCall
        → RunRow Float
        → Items Float × Items Float
        → Result SimulationError SimulationRow
    check_input call run (buy, sell) = do
      input ← or_raise (load run.request.input_reference run.request.input_sha256) input_error
      minutes ← or_raise (minutes_of py (get "timestep_minutes" input)) uncaught
      guard (is_positive minutes) (policy_failed input_interval_duration)
      capacity_kw ← or_raise (capacity_of py (get "chargers" input)) uncaught
      net ← or_raise (net_energy py call.interval_index buy sell) uncaught
      guard (is_finite net) (policy_failed finite_site_setpoint)
      frame_setpoint call run net minutes capacity_kw

    -- The checks on the run, in front of those.
    unfoldable pub check_candidate :
        SimulationCall → RunRow Float → Option ApprovalRow → Result SimulationError SimulationRow
    check_candidate call run approval = do
      guard (is_approved approval) (policy_failed immutable_operator_approval)
      guard (is run.status succeeded) (policy_failed successful_candidate)
      guard (is_bound run approval) (policy_failed approval_result_hash)
      passed ← or_raise (validation_passed (get "validation" (result_of run))) uncaught
      guard passed (policy_failed deterministic_validation)
      series ←
          or_raise
            (power_series (as_list (get "w_buy" (result_of run)))
              (as_list (get "w_sell" (result_of run))))
            (policy_failed site_power_series)
      guard (leb call.interval_index (items_length series.0)) (policy_failed interval_in_horizon)
      check_input call run series

    -- `create`
    unfoldable pub create_simulation :
        (Simulations → Simulations)
        → Runs Float
        → Approvals
        → ℕ
        → SimulationCall
        → Simulations
        → Result SimulationError SimulationRow × Simulations
    create_simulation others runs approvals run_id call db = elim (find run_id runs) [
      | none ↦ (err unknown_run, db)
      | some run ↦ elim (find_simulation run_id call.interval_index db) [
        | some existing ↦ (ok existing, db)
        | none ↦
            commit_simulation others (check_candidate call run (find_approval run_id approvals)) db
      ]
    ]
