-- ===== src/Runs/Row.antt =====
-- `RunRow` of aggregator_demo/database.py, and the table that holds the rows. UUIDs are only
-- compared, and times only compared and shifted, so both are naturals (times in microseconds).
use depotflux_demo.Prelude.{ℕ, Bool, Option, none, some, List, [], ◌∷◌, String, ◌==◌, if◌then◌else◌}
use depotflux_demo.Runs.Status.{RunStatus}
use depotflux_demo.Runs.Json.{Json, Fields}

pub data RunType : Type 0 where
  day_ahead real_time : RunType

pub data OptimizationMode : Type 0 where
  selfish altruistic : OptimizationMode

-- `RunCreateRequest` of aggregator_demo/contracts.py; `agent_backend` has one value.
pub record RunCreateRequest : Type 0 where
  pub run_type : RunType
  pub optimization_mode : OptimizationMode
  pub input_reference : String
  pub input_sha256 : String
  pub v2g_enabled : Bool
  pub scenario_ids : List String

-- The columns that come from the request stand in `request`.
pub record RunRow (A : Type 0) : Type 0 where
  pub id : ℕ
  pub idempotency_key : Option String
  pub request_fingerprint : String
  pub status : RunStatus
  pub request : RunCreateRequest
  pub requested_by : String
  pub created_at : ℕ
  pub updated_at : ℕ
  pub started_at : Option ℕ
  pub completed_at : Option ℕ
  pub failure_code : Option String
  pub failure_message : Option String
  pub worker_id : Option String
  pub heartbeat_at : Option ℕ
  pub recovery_count : ℕ
  pub last_recovered_at : Option ℕ
  pub solver_name : Option (Json A)
  pub result_sha256 : Option String
  pub result_payload : Option (Fields A)

abbrev pub Runs : Type 0 → Type 0
Runs A = List (RunRow A)

module _ {A : Type 0} where
  -- `session.get(RunRow, run_id)`
  unfoldable pub find : ℕ → Runs A → Option (RunRow A)
  find run_id [] = none
  find run_id (row ∷ rows) = if row.id == run_id then some row else find run_id rows

  -- The commit of a changed row.
  unfoldable pub store : RunRow A → Runs A → Runs A
  store row [] = []
  store row (old ∷ rows) = if old.id == row.id then row ∷ rows else old ∷ store row rows
