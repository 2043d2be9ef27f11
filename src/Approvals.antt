-- ===== src/Approvals.antt =====
-- `ApprovalRepository` of aggregator_demo/approval_repository.py, with `ApprovalRow` of database.py
-- and the request of contracts.py. Between its lookups and its commit other sessions may commit:
-- `others` is what they do to the table of decisions.
pub mod Binding
pub mod Final
pub mod Timeline
mod Tests
use text.Mathlib.Text.{◌==◌ as str_eq}
use depotflux_demo.Prelude.{
  ℕ, Bool, true, false, not, ◌&&◌, ◌||◌, Option, none, some, List, [], ◌∷◌, ◌++◌, String, ◌==◌,
  if◌then◌else◌, Result, ok, err,
}
use depotflux_demo.Runs.Status.{succeeded, is}
use depotflux_demo.Runs.Json.{Json, flag, dict, Fields, end, get}
use depotflux_demo.Runs.Row.{RunRow, Runs, find}
use depotflux_demo.Runs.Create.{given}

pub data ApprovalDecision : Type 0 where
  approved rejected : ApprovalDecision

abbrev pub is_decision : ApprovalDecision → ApprovalDecision → Bool
is_decision approved approved = true
is_decision rejected rejected = true
is_decision _ _ = false

pub record ApprovalCreateRequest : Type 0 where
  pub decision : ApprovalDecision
  pub note : Option String

pub record ApprovalRow : Type 0 where
  pub id : ℕ
  pub run_id : ℕ
  pub decision : ApprovalDecision
  pub decided_by : String
  pub result_sha256 : String
  pub note : Option String
  pub created_at : ℕ

abbrev pub Approvals : Type 0
Approvals = List ApprovalRow

-- `RunNotFoundError`, `ApprovalNotFoundError`, `ApprovalConflictError`, SQLAlchemy's
-- `IntegrityError`, and the `AttributeError` of a validation that is no dict.
pub data ApprovalError : Type 0 where
  unknown_run undecided decision_conflict approval_integrity attribute_error : ApprovalError

abbrev pub ApprovalMethod : Type 0 → Type 0
ApprovalMethod B = Approvals → Result ApprovalError B × Approvals

-- `select(ApprovalRow).where(ApprovalRow.run_id == …)`
unfoldable pub find_approval : ℕ → Approvals → Option ApprovalRow
find_approval run_id [] = none
find_approval run_id (row ∷ rows) =
    if row.run_id == run_id then some row else find_approval run_id rows

-- `row.note != request.note`, negated
unfoldable pub is_same_note : Option String → Option String → Bool
is_same_note none none = true
is_same_note (some a) (some b) = str_eq a b
is_same_note _ _ = false

unfoldable pub resolve_existing :
    ApprovalRow → ApprovalCreateRequest → String → Result ApprovalError ApprovalRow
resolve_existing row request decided_by =
    if not (is_decision row.decision request.decision)
      || (not (is_same_note row.note request.note) || not (str_eq row.decided_by decided_by))
    then err decision_conflict
    else ok row

-- `get`
unfoldable pub get_approval : ℕ → ApprovalMethod ApprovalRow
get_approval run_id db = elim (find_approval run_id db) [
  | none ↦ (err undecided, db)
  | some row ↦ (ok row, db)
]

unfoldable pub new_approval : ℕ → ApprovalCreateRequest → String → String → ℕ → ℕ → ApprovalRow
new_approval run_id request decided_by sha256 new_id now = record {
  id = new_id;
  run_id = run_id;
  decision = request.decision;
  decided_by = decided_by;
  result_sha256 = sha256;
  note = request.note;
  created_at = now;
}

-- The unique columns: the id and the run.
unfoldable pub is_decided : ApprovalRow → Approvals → Bool
is_decided row [] = false
is_decided row (old ∷ rows) = old.id == row.id || (old.run_id == row.run_id || is_decided row rows)

-- The commit, and the handler of its `IntegrityError`.
unfoldable pub insert_approval :
    ApprovalRow → ApprovalCreateRequest → String → ApprovalMethod ApprovalRow
insert_approval row request decided_by db =
    if is_decided row db
    then elim (find_approval row.run_id db) [
      | none ↦ (err approval_integrity, db)
      | some existing ↦ (resolve_existing existing request decided_by, db)
    ]
    else (ok row, db ++ row ∷ [])

module _ {A : Type 0} where
  -- `value is True`
  abbrev pub is_true : Option (Json A) → Bool
  is_true (some (flag true)) = true
  is_true _ = false

  -- `.get("passed") is True` of a value under the key "validation"; a missing key gives `{}`
  unfoldable pub has_passed : Option (Json A) → Result ApprovalError Bool
  has_passed none = ok false
  has_passed (some (dict fields)) = ok (is_true (get "passed" fields))
  has_passed (some _) = err attribute_error

  -- `run.result_payload or {}`
  abbrev pub payload_of : RunRow A → Fields A
  payload_of run = elim run.result_payload [ none ↦ end | some payload ↦ payload ]

  -- `create` for a run that was found and has no decision.
  unfoldable pub decide_run :
      (Approvals → Approvals)
      → RunRow A
      → ℕ
      → ApprovalCreateRequest
      → String
      → ℕ
      → ℕ
      → ApprovalMethod ApprovalRow
  decide_run others run run_id request decided_by new_id now db =
      if not (is run.status succeeded)
      then (err decision_conflict, db)
      else elim (has_passed (get "validation" (payload_of run))) [
        | err e ↦ (err e, db)
        | ok false ↦ (err decision_conflict, db)
        | ok true ↦ elim (given run.result_sha256) [
          | none ↦ (err decision_conflict, db)
          | some sha256 ↦
              insert_approval (new_approval run_id request decided_by sha256 new_id now) request
                decided_by (others db)
        ]
      ]

  -- `create`
  unfoldable pub create_approval :
      (Approvals → Approvals)
      → Runs A
      → ℕ
      → ApprovalCreateRequest
      → String
      → ℕ
      → ℕ
      → ApprovalMethod ApprovalRow
  create_approval others runs run_id request decided_by new_id now db = elim (find run_id runs) [
    | none ↦ (err unknown_run, db)
    | some run ↦ elim (find_approval run_id db) [
      | some existing ↦ (resolve_existing existing request decided_by, db)
      | none ↦ decide_run others run run_id request decided_by new_id now db
    ]
  ]
