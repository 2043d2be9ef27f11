-- ===== src/Runs/Create.antt =====
-- `create` of aggregator_demo/run_repository.py. Between its lookup and its commit other sessions may
-- commit: `others` is what they do to the table.
pub mod Retry
use text.Mathlib.Text.{◌==◌ as str_eq}
use depotflux_demo.Prelude.{
  ℕ, Bool, true, false, Option, none, some, List, [], ◌∷◌, ◌++◌, String, if◌then◌else◌, Result, ok,
  err,
}
use depotflux_demo.Runs.Status.{queued}
use depotflux_demo.Runs.Row.{RunCreateRequest, RunRow, Runs, find}
use depotflux_demo.Runs.Repository.{RunError, conflict, integrity_error, Method}

-- `if idempotency_key`: an empty key counts as none
unfoldable pub given : Option String → Option String
given none = none
given (some key) = if str_eq key "" then none else some key

unfoldable pub has_key : String → Option String → Bool
has_key key none = false
has_key key (some other) = str_eq other key

module _ {A : Type 0} where
  -- `_find_by_idempotency_key`
  unfoldable pub find_by_key : String → Runs A → Option (RunRow A)
  find_by_key key [] = none
  find_by_key key (row ∷ rows) =
      if has_key key row.idempotency_key then some row else find_by_key key rows

  -- `_resolve_idempotent`
  unfoldable pub resolve_idempotent : RunRow A → String → Result RunError (RunRow A × Bool)
  resolve_idempotent row fingerprint =
      if str_eq row.request_fingerprint fingerprint then ok (row, false) else err conflict

  -- The unique columns of the table: `none` is the `IntegrityError`.
  unfoldable pub is_taken : RunRow A → Runs A → Bool
  is_taken row db = elim (find row.id db) [
    | some _ ↦ true
    | none ↦ elim row.idempotency_key [
      | none ↦ false
      | some key ↦ elim (find_by_key key db) [ some _ ↦ true | none ↦ false ]
    ]
  ]

  unfoldable pub new_row : RunCreateRequest → String → String → Option String → ℕ → ℕ → RunRow A
  new_row request fingerprint requested_by idempotency_key new_id now = record {
    id = new_id;
    idempotency_key = idempotency_key;
    request_fingerprint = fingerprint;
    status = queued;
    request = request;
    requested_by = requested_by;
    created_at = now;
    updated_at = now;
    started_at = none;
    completed_at = none;
    failure_code = none;
    failure_message = none;
    worker_id = none;
    heartbeat_at = none;
    recovery_count = 0;
    last_recovered_at = none;
    solver_name = none;
    result_sha256 = none;
    result_payload = none;
  }

  -- The handler of the `IntegrityError`, behind the rollback.
  unfoldable pub after_collision : Option String → String → Method A (RunRow A × Bool)
  after_collision none fingerprint db = (err integrity_error, db)
  after_collision (some key) fingerprint db = elim (find_by_key key db) [
    | none ↦ (err integrity_error, db)
    | some existing ↦ (resolve_idempotent existing fingerprint, db)
  ]

  unfoldable pub insert_row : RunRow A → String → Method A (RunRow A × Bool)
  insert_row row fingerprint db =
      if is_taken row db
      then after_collision (given row.idempotency_key) fingerprint db
      else (ok (row, true), db ++ row ∷ [])

  -- The first lookup, by the key that counts as given.
  unfoldable pub existing_run : Option String → Runs A → Option (RunRow A)
  existing_run none db = none
  existing_run (some key) db = find_by_key key db

  -- The canonical JSON of the request and its SHA-256 are a parameter, and so is the new UUID.
  unfoldable pub create :
      (RunCreateRequest → String)
      → (Runs A → Runs A)
      → RunCreateRequest
      → String
      → Option String
      → ℕ
      → ℕ
      → Method A (RunRow A × Bool)
  create request_fingerprint others request requested_by idempotency_key new_id now db =
      let fingerprint = request_fingerprint request in
      elim (existing_run (given idempotency_key) db) [
        | some existing ↦ (resolve_idempotent existing fingerprint, db)
        | none ↦
            insert_row (new_row request fingerprint requested_by idempotency_key new_id now)
              fingerprint (others db)
      ]
