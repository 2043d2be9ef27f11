-- ===== src/Notices.antt =====
-- `NoticeRepository` of aggregator_demo/notice_repository.py, with `OperationalNoticeRow` of
-- aggregator_demo/database.py. The texts of a notice are left out.
pub mod Linked
pub mod Replan
pub mod Retry
mod Tests
use text.Mathlib.Text.{◌==◌ as str_eq}
use depotflux_demo.Prelude.{
  ℕ, zero, suc, ◌+◌, Bool, true, false, not, ◌&&◌, ◌||◌, Option, none, some, List, [], ◌∷◌, ◌++◌,
  String, ◌<>◌, ◌==◌, if◌then◌else◌, Result, ok, err,
}
use depotflux_demo.Prelude.Int.{pos}
use depotflux_demo.Floats.{Floats}
use depotflux_demo.Runs.Status.{succeeded, is}
use depotflux_demo.Runs.Json.{
  Json, number, string, list, dict, Items, nil, cons, Fields, end, field, get,
}
use depotflux_demo.Runs.Row.{RunCreateRequest, real_time, RunRow, Runs, find}
use depotflux_demo.Runs.Repository.{RunError}
use depotflux_demo.Runs.Create.{create}
use depotflux_demo.Approvals.{ApprovalRow, Approvals, approved, is_decision, find_approval}
use depotflux_demo.Schedule.{items_length, is_falsy}

pub data NoticeScenario : Type 0 where
  late_return charger_derating combined_disruption site_power_isolation : NoticeScenario

abbrev rank : NoticeScenario → ℕ
rank late_return = 0
rank charger_derating = 1
rank combined_disruption = 2
rank site_power_isolation = 3

-- `==` on the enumeration
abbrev pub is_scenario : NoticeScenario → NoticeScenario → Bool
is_scenario a b = rank a == rank b

-- The value of the enumeration.
abbrev scenario_name : NoticeScenario → String
scenario_name late_return = "late_return"
scenario_name charger_derating = "charger_derating"
scenario_name combined_disruption = "combined_disruption"
scenario_name site_power_isolation = "site_power_isolation"

pub record NoticeRow ⦃F : Floats⦄ : Type 0 where
  pub id : ℕ
  pub baseline_run_id : ℕ
  pub candidate_run_id : ℕ
  pub scenario : NoticeScenario
  pub structured_facts : Fields F.Float
  pub confidence : F.Float
  pub replan_recommended : Bool
  pub created_by : String
  pub created_at : ℕ

pub record NoticeCreateRequest : Type 0 where
  pub baseline_run_id : ℕ
  pub scenario : NoticeScenario

-- `RunNotFoundError`, the four messages of `NoticeConflictError`, what `RunRepository.create`
-- raises, and the `TypeError` of `len`.
pub data NoticeError : Type 0 where
  unknown_baseline no_approved_baseline other_notice no_notice has_notice : NoticeError
  run_failed : RunError → NoticeError
  no_length : NoticeError

-- The arguments of `create_simulated` but the request, with the new identifiers and times.
pub record NoticeCall : Type 0 where
  pub created_by : String
  pub idempotency_key : Option String
  pub new_run_id : ℕ
  pub run_created_at : ℕ
  pub new_notice_id : ℕ
  pub notice_created_at : ℕ

-- `f"replan:{idempotency_key}"`
unfoldable pub replan_key : Option String → Option String
replan_key none = none
replan_key (some key) = some ("replan:" <> key)

module _ ⦃F : Floats⦄ where
  open F use {Float, of_int, div}

  abbrev pub Notices : Type 0
  Notices = List NoticeRow

  -- `get_by_candidate`
  unfoldable pub find_by_candidate : ℕ → Notices → Option NoticeRow
  find_by_candidate run_id [] = none
  find_by_candidate run_id (notice ∷ notices) =
      if notice.candidate_run_id == run_id then some notice else find_by_candidate run_id notices

  abbrev integer : ℕ → Json Float
  integer n = number (of_int (pos n))

  abbrev derating : ℕ → ℕ → ℕ → Json Float
  derating charger_id to_kw end_timestep = dict (
      field "charger_id" (integer charger_id) (
        field "from_kw" (integer 200) (
          field "to_kw" (integer to_kw) (
            field "start_timestep" (integer 15)
              (field "end_timestep" (integer end_timestep) end)))))

  -- The deratings of the chargers from `charger_id` on, as many as `count`.
  unfoldable pub isolated_chargers : ℕ → ℕ → Items Float
  isolated_chargers charger_id zero = nil
  isolated_chargers charger_id (suc count) =
      cons (derating charger_id 0 48) (isolated_chargers (suc charger_id) count)

  abbrev facts : Items Float → Items Float → Fields Float
  facts late_returns charger_deratings = field "observed_at_timestep" (integer 14) (
      field "effective_from_timestep" (integer 15) (
        field "late_returns" (list late_returns)
          (field "charger_deratings" (list charger_deratings) end)))

  abbrev delayed_bus : Items Float
  delayed_bus =
      cons (dict (field "bus_id" (integer 1) (field "delay_minutes" (integer 30) end))) nil

  -- `_scenario_payload`: the facts and the confidence
  unfoldable pub scenario_payload : NoticeScenario → ℕ → Fields Float × Float
  scenario_payload late_return charger_count =
      (facts delayed_bus nil, div (of_int (pos 99)) (of_int (pos 100)))
  scenario_payload charger_derating charger_count =
      (facts nil (cons (derating 1 150 22) nil), div (of_int (pos 99)) (of_int (pos 100)))
  scenario_payload combined_disruption charger_count =
      (facts delayed_bus (cons (derating 1 150 22) nil), div (of_int (pos 99)) (of_int (pos 100)))
  scenario_payload site_power_isolation charger_count =
      (facts nil (isolated_chargers 1 charger_count), of_int (pos 1))

  -- A passing, approved run.
  unfoldable pub is_replannable : RunRow Float → Option ApprovalRow → Bool
  is_replannable baseline none = false
  is_replannable baseline (some approval) = elim baseline.result_payload [
    | none ↦ false
    | some _ ↦ elim baseline.result_sha256 [
      | none ↦ false
      | some sha256 ↦
          is baseline.status succeeded
          && (is_decision approval.decision approved && str_eq approval.result_sha256 sha256)
    ]
  ]

  unfoldable pub replan_request : RunRow Float → NoticeScenario → RunCreateRequest
  replan_request baseline scenario = record {
    run_type = real_time;
    optimization_mode = baseline.request.optimization_mode;
    input_reference = baseline.request.input_reference;
    input_sha256 = baseline.request.input_sha256;
    v2g_enabled = baseline.request.v2g_enabled;
    scenario_ids = ("notice:" <> scenario_name scenario) ∷ [];
  }

  unfoldable pub fields_length : Fields Float → ℕ
  fields_length end = 0
  fields_length (field _ _ d) = suc (fields_length d)

  unfoldable pub energy_of : RunRow Float → Option (Json Float)
  energy_of baseline = elim baseline.result_payload [
    | none ↦ none
    | some payload ↦ get "energy" payload
  ]

  unfoldable pub new_notice :
      NoticeCreateRequest → NoticeCall → RunRow Float → RunRow Float → ℕ → NoticeRow
  new_notice request call baseline candidate count = record {
    id = call.new_notice_id;
    baseline_run_id = baseline.id;
    candidate_run_id = candidate.id;
    scenario = request.scenario;
    structured_facts = (scenario_payload request.scenario count).0;
    confidence = (scenario_payload request.scenario count).1;
    replan_recommended = true;
    created_by = call.created_by;
    created_at = call.notice_created_at;
  }

  -- `len()` of a text is a parameter.
  module _ (text_length : String → ℕ) where
    -- `len(payload.get("energy") or []) or 8`
    unfoldable pub charger_count : Option (Json Float) → Option ℕ
    charger_count none = some 8
    charger_count (some value) = if is_falsy value then some 8 else elim value [
      | list items ↦ some (items_length items)
      | dict fields ↦ some (fields_length fields)
      | string s ↦ some (text_length s)
      | _ ↦ none
    ]

    -- The new notice, and its commit behind those of other sessions.
    unfoldable pub insert_notice :
        (Notices → Notices)
        → NoticeCreateRequest
        → NoticeCall
        → RunRow Float
        → RunRow Float
        → Notices
        → Result NoticeError NoticeRow × Notices
    insert_notice later request call baseline candidate notices =
        elim (charger_count (energy_of baseline)) [
          | none ↦ (err no_length, notices)
          | some count ↦ elim (find_by_candidate candidate.id (later notices)) [
            | some _ ↦ (err has_notice, later notices)
            | none ↦ (
              ok (new_notice request call baseline candidate count),
              later notices ++ new_notice request call baseline candidate count ∷ [],
            )
          ]
        ]

    -- Behind the candidate.
    unfoldable pub link_notice :
        (Notices → Notices)
        → NoticeCreateRequest
        → NoticeCall
        → RunRow Float
        → RunRow Float
        → Bool
        → Notices
        → Result NoticeError NoticeRow × Notices
    link_notice later request call baseline candidate created notices =
        elim (find_by_candidate candidate.id notices) [
          | some existing ↦
              if not (existing.baseline_run_id == request.baseline_run_id)
                || not (is_scenario existing.scenario request.scenario)
              then (err other_notice, notices)
              else (ok existing, notices)
          | none ↦
              if not created
              then (err no_notice, notices)
              else insert_notice later request call baseline candidate notices
        ]

    unfoldable pub link_candidate :
        (Notices → Notices)
        → NoticeCreateRequest
        → NoticeCall
        → RunRow Float
        → Notices
        → Result RunError (RunRow Float × Bool) × Runs Float
        → Result NoticeError NoticeRow × (Runs Float × Notices)
    link_candidate later request call baseline notices (err error, runs) =
        (err (run_failed error), (runs, notices))
    link_candidate later request call baseline notices (ok (candidate, created), runs) =
        let linked = link_notice later request call baseline candidate created notices in
        (linked.0, (runs, linked.1))

    -- `others` and `later` are what other sessions commit to the runs and to the notices.
    module _ (fingerprint : RunCreateRequest → String) (others : Runs Float → Runs Float)
        (later : Notices → Notices) where
      unfoldable pub create_simulated :
          NoticeCreateRequest
          → NoticeCall
          → Approvals
          → Runs Float
          → Notices
          → Result NoticeError NoticeRow × (Runs Float × Notices)
      create_simulated request call approvals runs notices =
          elim (find request.baseline_run_id runs) [
            | none ↦ (err unknown_baseline, (runs, notices))
            | some baseline ↦
                if not (is_replannable baseline (find_approval baseline.id approvals))
                then (err no_approved_baseline, (runs, notices))
                else link_candidate later request call baseline notices (
                    create fingerprint others (replan_request baseline request.scenario)
                      call.created_by (replan_key call.idempotency_key) call.new_run_id
                      call.run_created_at runs)
          ]
