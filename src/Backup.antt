-- ===== src/Backup.antt =====
-- create_backup and restore_backup of aggregator_demo/admin.py. The digest, the ISO texts of times and
-- the constraints of the database are parameters; a database is a list of tables in the order of
-- `_MODELS`.
pub mod Models
pub mod RoundTrip
mod Tests
use text.Mathlib.Text.{◌==◌ as str_eq}
use depotflux_demo.Prelude.{
  ℕ, Bool, true, false, not, ◌&&◌, ◌||◌, Option, none, some, List, [], ◌∷◌, String, map, length,
  ◌==◌, if◌then◌else◌, Result, ok, err, guard, ◌>>=◌, ◌>>◌,
}
use depotflux_demo.Runs.Json.{
  Json, null, string, list, dict, Items, nil, cons, Fields, end, field, get,
}
use depotflux_demo.Auth.{is_one_of}

-- A column with its name and whether its type is `DateTime`.
pub record Column : Type 0 where
  pub name : String
  pub is_datetime : Bool

pub record Model : Type 0 where
  pub tablename : String
  pub columns : List Column

-- A value of a column: a time, or a JSON value, with `null` for `None`.
pub data Value (A : Type 0) : Type 0 where
  moment : ℕ → Value A
  stored : Json A → Value A

abbrev pub Table : Type 0 → Type 0
Table A = List (List (Value A))

-- The messages of the `ValueError`s, a value that is no ISO text or no row, and what the database
-- raises.
pub data BackupError : Type 0 where
  unsupported_schema digest_mismatch wrong_tables wrong_columns : BackupError
  no_iso_text no_row no_value constraint_failed : BackupError

unfoldable pub keys : {A : Type 0} → Fields A → List String
keys end = []
keys (field key value rest) = key ∷ keys rest

unfoldable pub all_in : List String → List String → Bool
all_in [] others = true
all_in (text ∷ texts) others = is_one_of text others && all_in texts others

-- `set(texts) == set(others)`
unfoldable pub same_set : List String → List String → Bool
same_set texts others = all_in texts others && all_in others texts

-- The payload without its "sha256".
unfoldable pub unsigned : {A : Type 0} → Fields A → Fields A
unsigned end = end
unsigned (field key value rest) =
    let others = unsigned rest in if str_eq key "sha256" then others else field key value others

-- A dict with one key for each of two lists' pairs.
unfoldable pub comprehension :
    {A X Y : Type 0} → (X → String) → (X → Y → Json A) → List X → List Y → Fields A
comprehension name value (x ∷ xs) (y ∷ ys) =
    field (name x) (value x y) (comprehension name value xs ys)
comprehension name value _ _ = end

-- `isoformat`, `fromisoformat`, the SHA-256 of the canonical JSON, `len` of a text, and whether the
-- database takes the rows of a table, behind the tables that were inserted before.
pub record Environment (A : Type 0) : Type 0 where
  pub isoformat : ℕ → String
  pub fromisoformat : String → Option ℕ
  pub digest : Fields A → String
  pub count : String → ℕ
  pub admits : List (Table A) → Model → Table A → Bool

module _ {A : Type 0} (py : Environment A) where
  -- `_json_value`
  unfoldable pub json_value : Value A → Json A
  json_value (moment t) = string (py.isoformat t)
  json_value (stored value) = value

  unfoldable pub row_dict : List Column → List (Value A) → Fields A
  row_dict = comprehension (λ column. column.name) (λ _ value. json_value value)

  unfoldable pub rows_list : List Column → Table A → Items A
  rows_list columns [] = nil
  rows_list columns (row ∷ rows) = cons (dict (row_dict columns row)) (rows_list columns rows)

  unfoldable pub tables_dict : List Model → List (Table A) → Fields A
  tables_dict =
      comprehension (λ model. model.tablename) (λ model table. list (rows_list model.columns table))

  -- create_backup, with the version of the application and the text of the time.
  unfoldable pub create_backup : List Model → String → String → List (Table A) → Fields A
  create_backup models version now tables =
      let contents = field "schema_version" (string "depotflux-backup-v1") (
        field "application_version" (string version) (
          field "created_at" (string now)
            (field "tables" (dict (tables_dict models tables)) end))) in
      field "sha256" (string (py.digest (unsigned contents))) contents

  -- compare_digest_hex, for texts in ASCII
  unfoldable pub compare_digest_hex : String → String → Bool
  compare_digest_hex left right = py.count left == 64 && (py.count right == 64 && str_eq left right)

  unfoldable pub is_text : String → Option (Json A) → Bool
  is_text text (some (string s)) = str_eq s text
  is_text text _ = false

  unfoldable pub is_signed : Option (Json A) → String → Bool
  is_signed (some (string s)) digest = compare_digest_hex s digest
  is_signed _ digest = false

  -- The tables of a payload, where their names are the expected ones.
  unfoldable pub backup_tables : List Model → Option (Json A) → Result BackupError (Fields A)
  backup_tables models (some (dict tables)) =
      if same_set (keys tables) (map (λ m. m.tablename) models) then ok tables else err wrong_tables
  backup_tables models _ = err wrong_tables

  -- `_validate_backup`, with the tables
  unfoldable pub validate_backup : List Model → Fields A → Result BackupError (Fields A)
  validate_backup models payload =
      guard (is_text "depotflux-backup-v1" (get "schema_version" payload)) unsupported_schema
      >> guard (is_signed (get "sha256" payload) (py.digest (unsigned payload))) digest_mismatch
      >> backup_tables models (get "tables" payload)

  unfoldable pub restored_value : Bool → Json A → Result BackupError (Value A)
  restored_value is_datetime null = ok (stored null)
  restored_value true (string s) = elim (py.fromisoformat s) [
    | none ↦ err no_iso_text
    | some t ↦ ok (moment t)
  ]
  restored_value true _ = err no_iso_text
  restored_value false value = ok (stored value)

  unfoldable pub restored_values : List Column → Fields A → Result BackupError (List (Value A))
  restored_values [] row = ok []
  restored_values (column ∷ columns) row =
      let rest = restored_values columns row in
      elim (get column.name row) [
        | none ↦ err no_value
        | some value ↦ restored_value column.is_datetime value >>= λ v. rest >>= λ vs. ok (v ∷ vs)
      ]

  -- `_database_row`
  unfoldable pub database_row : Model → Json A → Result BackupError (List (Value A))
  database_row model (dict row) =
      guard (same_set (keys row) (map (λ c. c.name) model.columns)) wrong_columns
      >> restored_values model.columns row
  database_row model _ = err no_row

  unfoldable pub database_rows : Model → Items A → Result BackupError (Table A)
  database_rows model nil = ok []
  database_rows model (cons row rows) =
      let rest = database_rows model rows in
      database_row model row >>= λ r. rest >>= λ rs. ok (r ∷ rs)

  unfoldable pub table_rows : Model → Option (Json A) → Result BackupError (Table A)
  table_rows model (some (list items)) = database_rows model items
  table_rows model _ = err no_row

  unfoldable pub insert_rows : List (Table A) → Model → Table A → Result BackupError (Unit {0})
  insert_rows before model [] = ok tt
  insert_rows before model (row ∷ rows) =
      guard (py.admits before model (row ∷ rows)) constraint_failed

  -- The loop of the inserts, on a database that was emptied.
  unfoldable pub inserted :
      List (Table A) → List Model → Fields A → Result BackupError (List (Table A))
  inserted before [] tables = ok []
  inserted before (model ∷ models) tables =
      table_rows model (get model.tablename tables) >>= λ rows.
      insert_rows before model rows >> inserted (rows ∷ before) models tables >>= λ others.
      ok (rows ∷ others)

  -- restore_backup: the transaction keeps the tables where anything raises.
  unfoldable pub restore_backup :
      List Model → Fields A → List (Table A) → Result BackupError (List ℕ) × List (Table A)
  restore_backup models payload db =
      elim (validate_backup models payload >>= λ tables. inserted [] models tables) [
        | err error ↦ (err error, db)
        | ok tables ↦ (ok (map length tables), tables)
      ]
