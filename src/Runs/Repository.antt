-- ===== src/Runs/Repository.antt =====
-- `RunRepository` of aggregator_demo/run_repository.py. A method takes the time of its `utc_now()`
-- and the table, and returns the table beside its result. The responses are projections of a row,
-- so the row stands for them. A method reads and commits in one step, except where the code itself
-- provides for other sessions (Runs/Claim.antt and Runs/Create.antt).
use depotflux_demo.Prelude.{
  ℕ, suc, ◌+◌, leb, Bool, true, false, not, ◌&&◌, ◌||◌, Option, none, some, List, [], ◌∷◌, String,
  ltb, if◌then◌else◌, Result, ok, err, and_then,
}
use depotflux_demo.Prelude.Int.{ℤ, pos, negsuc}
use depotflux_demo.Runs.Status.{
  RunStatus, queued, running, succeeded, failed, infeasible, timed_out, cancel_requested, cancelled,
  degraded, is, is_terminal, is_allowed,
}
use depotflux_demo.Runs.Json.{null, string, Fields, get}
use depotflux_demo.Runs.Row.{RunRow, Runs, find, store}

-- `RunNotFoundError`, `RunConflictError`, `ValueError`, and SQLAlchemy's `IntegrityError` and
-- `DataError`
pub data RunError : Type 0 where
  not_found conflict value_error integrity_error data_error : RunError

-- `len(text)`
unfoldable pub text_length : String → ℕ
text_length String.[] = 0
text_length (String.◌∷◌ c text) = suc (text_length text)

-- Whether a column `String(bound)` takes a text.
unfoldable pub fits : ℕ → Option String → Bool
fits bound none = true
fits bound (some text) = leb (text_length text) bound

-- Whether the columns `failure_code` and `failure_message` take these texts: PostgreSQL raises
-- `DataError` at the commit where one is too long, and the transaction is rolled back.
unfoldable pub storable : Option String → Option String → Bool
storable failure_code failure_message = fits 64 failure_code && fits 1000 failure_message

abbrev pub Method : Type 0 → Type 0 → Type 0
Method A B = Runs A → Result RunError B × Runs A

unfoldable pub is_failure_status : RunStatus → Bool
is_failure_status status =
    is status failed || (is status infeasible || (is status timed_out || is status degraded))

-- Whether the column `solver_name` takes the entry of a result: a text that is not too long, or none.
-- Errors of the database for other values are a `DataError` here, too.
unfoldable pub names_solver : {A : Type 0} → Fields A → Bool
names_solver payload = elim (get "solver_name" payload) [
  | none ↦ true
  | some value ↦ elim value [ string name ↦ fits 64 (some name) | null ↦ true | _ ↦ false ]
]

module _ {A : Type 0} where
  -- `_get_row`
  unfoldable pub get_row : ℕ → Method A (RunRow A)
  get_row run_id db = elim (find run_id db) [ none ↦ (err not_found, db) | some row ↦ (ok row, db) ]

  -- The assignments of `transition`.
  unfoldable pub moved : RunStatus → Option String → Option String → ℕ → RunRow A → RunRow A
  moved target failure_code failure_message now row = record row {
    status = target;
    updated_at = now;
    started_at = elim row.started_at [
      | none ↦ if is target running then some now else none
      | some t ↦ some t
    ];
    heartbeat_at = if is target running || is_terminal target then some now else row.heartbeat_at;
    completed_at = if is_terminal target then some now else row.completed_at;
    failure_code = failure_code;
    failure_message = failure_message;
  }

  unfoldable pub transition :
      ℕ → RunStatus → Option String → Option String → ℕ → Method A (RunRow A)
  transition run_id target failure_code failure_message now db =
      and_then (get_row run_id db) λ row db.
        if is row.status target
        then (ok row, db)
        else if not (is_allowed row.status target)
        then (err conflict, db)
        else if not (storable failure_code failure_message)
        then (err data_error, db)
        else let row' = moved target failure_code failure_message now row in
          (ok row', store row' db)

  unfoldable pub result : ℕ → Method A (RunRow A)
  result run_id db =
      and_then (get_row run_id db)
        λ row db. if not (is_terminal row.status) then (err conflict, db) else (ok row, db)

  unfoldable pub request_cancellation : ℕ → ℕ → Method A (RunRow A)
  request_cancellation run_id now db = and_then (get_row run_id db) λ row db.
      if is row.status cancelled || is row.status cancel_requested
      then (ok row, db)
      else transition run_id (if is row.status queued then cancelled else cancel_requested) none
          none now db

  unfoldable pub fail : ℕ → RunStatus → String → String → ℕ → Method A (RunRow A)
  fail run_id status failure_code failure_message now db =
      if not (is_failure_status status)
      then (err value_error, db)
      else and_then (get_row run_id db) λ row db.
        if is row.status cancel_requested
        then and_then
            (transition run_id cancelled (some "operator_cancelled")
              (some "The operator cancelled the run during optimization.") now db)
            (λ _ db. result run_id db)
        else and_then (transition run_id status (some failure_code) (some failure_message) now db)
            (λ _ db. result run_id db)

  -- The row of a run that was cancelled before its result was committed.
  unfoldable pub cancelled_before_result : ℕ → RunRow A → RunRow A
  cancelled_before_result now row = record row {
    status = cancelled;
    updated_at = now;
    completed_at = some now;
    heartbeat_at = some now;
    failure_code = some "operator_cancelled";
    failure_message = some "The operator cancelled the run before its result was committed.";
  }

  unfoldable pub with_result :
      Fields A → String → RunStatus → Option String → Option String → ℕ → RunRow A → RunRow A
  with_result payload sha256 status failure_code failure_message now row = record row {
    result_payload = some payload;
    result_sha256 = some sha256;
    solver_name = get "solver_name" payload;
    status = status;
    updated_at = now;
    completed_at = some now;
    heartbeat_at = some now;
    failure_code = failure_code;
    failure_message = failure_message;
  }

  -- One row of `recover_stale`.
  unfoldable pub is_stale : ℕ → ℕ → RunRow A → Bool
  is_stale stale_after now row =
      (is row.status running || is row.status cancel_requested)
      && ltb (elim row.heartbeat_at [ none ↦ row.updated_at | some t ↦ t ] + stale_after) now

  unfoldable pub recovered : ℕ → RunRow A → RunRow A
  recovered now row =
      if is row.status cancel_requested
      then record row {
        status = cancelled;
        completed_at = some now;
        failure_code = some "operator_cancelled";
        failure_message =
            some "The operator cancelled the run before a replacement worker resumed it.";
        updated_at = now;
      }
      else record row {
        status = queued;
        worker_id = none;
        heartbeat_at = none;
        recovery_count = row.recovery_count + 1;
        last_recovered_at = some now;
        updated_at = now;
      }

  -- The table behind `recover_stale`, and the rows that it returns.
  unfoldable pub recover_rows : ℕ → ℕ → Runs A → Runs A
  recover_rows stale_after now [] = []
  recover_rows stale_after now (row ∷ rows) =
      (if is_stale stale_after now row then recovered now row else row)
      ∷ recover_rows stale_after now rows

  unfoldable pub recovered_rows : ℕ → ℕ → Runs A → List (RunRow A)
  recovered_rows stale_after now [] = []
  recovered_rows stale_after now (row ∷ rows) =
      let rest = recovered_rows stale_after now rows in
      if is_stale stale_after now row then recovered now row ∷ rest else rest

  unfoldable pub recover_stale : ℤ → ℕ → Method A (List (RunRow A))
  recover_stale (negsuc _) now db = (err value_error, db)
  recover_stale (pos stale_after) now db =
      (ok (recovered_rows stale_after now db), recover_rows stale_after now db)

  -- `_complete_with_result` behind the digest: `none` is the `ValueError` of a payload that has no
  -- JSON text.
  unfoldable pub commit_result :
      ℕ
      → Fields A
      → Option String
      → RunStatus
      → Option String
      → Option String
      → ℕ
      → Method A (RunRow A)
  commit_result run_id payload none status failure_code failure_message now db =
      (err value_error, db)
  commit_result run_id payload (some sha256) status failure_code failure_message now db =
      and_then (get_row run_id db) λ row db.
        if is row.status cancel_requested
        then result run_id (store (cancelled_before_result now row) db)
        else if not (is row.status running)
        then (err conflict, db)
        else if not (storable failure_code failure_message && names_solver payload)
        then (err data_error, db)
        else result run_id
            (store (with_result payload sha256 status failure_code failure_message now row) db)

  -- `json.dumps(result, …, allow_nan=False)` and its SHA-256 are a parameter.
  module _ (digest : Fields A → Option String) where
    unfoldable pub complete : ℕ → Fields A → ℕ → Method A (RunRow A)
    complete run_id payload now db =
        commit_result run_id payload (digest payload) succeeded none none now db

    unfoldable pub complete_degraded : ℕ → Fields A → String → String → ℕ → Method A (RunRow A)
    complete_degraded run_id payload failure_code failure_message now db =
        commit_result run_id payload (digest payload) degraded (some failure_code)
          (some failure_message) now db
