-- ===== src/Backup/RoundTrip.antt =====
-- A backup restores the tables that it was made of.
use text.Mathlib.Text.{◌==◌ as str_eq}
use text.Mathlib.TextEquality.{eq_iff}
use depotflux_demo.Prelude.{
  suc, ◌≡◌, refl, ap, ◌⊎◌, inl, inr, Bool, true, false, some, List, [], ◌∷◌, String, map, length,
  ok, All, arith,
}
use depotflux_demo.Runs.Json.{Json, null, flag, number, string, list, dict, Fields, field, get}
use depotflux_demo.Auth.{is_one_of, has_duplicates}
use depotflux_demo.Backup.{
  Column, Model, Value, moment, stored, Table, keys, all_in, same_set, unsigned, comprehension,
  Environment, json_value, row_dict, rows_list, tables_dict, create_backup, compare_digest_hex,
  is_text, is_signed, backup_tables, validate_backup, restored_value, restored_values, database_row,
  database_rows, table_rows, insert_rows, inserted, restore_backup,
}

str_eq_refl : (s : String) → str_eq s s ≡ true
str_eq_refl s = (eq_iff s s).1 refl

module _ {A X Y : Type 0} (name : X → String) (value : X → Y → Json A) where
  -- The dict has the value of each pair under its name.
  abbrev Holds : List X → List Y → Fields A → Type 0
  Holds [] ys d = Unit {0}
  Holds (x ∷ xs) [] d = Unit {0}
  Holds (x ∷ xs) (y ∷ ys) d = (get (name x) d ≡ some (value x y)) × Holds xs ys d

  Holds-field :
      (key : String) (v : Json A) (xs : List X) (ys : List Y) (d : Fields A)
      → is_one_of key (map name xs) ≡ false
      → Holds xs ys d
      → Holds xs ys (field key v d)
  unfolding is_one_of get
  Holds-field key v [] ys d new h = tt
  Holds-field key v (x ∷ xs) [] d new h = tt
  Holds-field key v (x ∷ xs) (y ∷ ys) d new (here, there) =
      (ground (arith, new, here), Holds-field key v xs ys d (ground (arith, new)) there)

  comprehension-Holds :
      (xs : List X) (ys : List Y)
      → has_duplicates (map name xs) ≡ false
      → Holds xs ys (comprehension name value xs ys)
  unfolding has_duplicates get comprehension
  comprehension-Holds [] ys new = tt
  comprehension-Holds (x ∷ xs) [] new = tt
  comprehension-Holds (x ∷ xs) (y ∷ ys) new = (
    rw (str_eq_refl (name x)) refl,
    Holds-field (name x) (value x y) xs ys (comprehension name value xs ys) (ground (arith, new))
        (comprehension-Holds xs ys (ground (arith, new))),
  )

  keys-comprehension :
      (xs : List X) (ys : List Y)
      → length xs ≡ length ys
      → keys (comprehension name value xs ys) ≡ map name xs
  unfolding keys comprehension
  keys-comprehension [] ys e = refl
  keys-comprehension (x ∷ xs) [] e = absurd (ground (arith, e))
  keys-comprehension (x ∷ xs) (y ∷ ys) e =
      ap (λ rest. name x ∷ rest) (keys-comprehension xs ys (ground (arith, e)))

all_in_lem :
    (texts others : List String)
    → ((t : String) → is_one_of t texts ≡ true → is_one_of t others ≡ true)
    → all_in texts others ≡ true
unfolding all_in is_one_of
all_in_lem [] others h = refl
all_in_lem (text ∷ texts) others h =
    rw
      (
        h text (rw (str_eq_refl text) refl),
        all_in_lem texts others (λ t e. h t (ground (arith, e))),
      )
      refl

same_set_refl : (texts : List String) → same_set texts texts ≡ true
unfolding same_set
same_set_refl texts = rw (all_in_lem texts texts (λ t e. e)) refl

-- No two tables, and no two columns of one table, have one name.
pub record IsSchema (models : List Model) : Type 0 where
  pub tables_differ : has_duplicates (map (λ m. m.tablename) models) ≡ false
  pub columns_differ : All (λ m. has_duplicates (map (λ c. c.name) m.columns) ≡ false) models

module _ {A : Type 0} (py : Environment A) where
  -- A value that a column of this kind holds: a time whose ISO text reads back, a JSON value, or
  -- nothing.
  abbrev IsTyped : Bool → Value A → Type 0
  IsTyped is_datetime (moment t) =
      (is_datetime ≡ true) × (py.fromisoformat (py.isoformat t) ≡ some t)
  IsTyped is_datetime (stored value) = (is_datetime ≡ false) ⊎ (value ≡ null)

  abbrev pub IsRow : List Column → List (Value A) → Type 0
  IsRow [] [] = Unit {0}
  IsRow (column ∷ columns) (v ∷ vs) = IsTyped column.is_datetime v × IsRow columns vs
  IsRow _ _ = ⊥

  -- The tables are those of the models, with rows of their columns, and the database takes them in
  -- their order.
  abbrev pub IsDatabase : List (Table A) → List Model → List (Table A) → Type 0
  IsDatabase before [] [] = Unit {0}
  IsDatabase before (model ∷ models) (table ∷ tables) =
      All (IsRow model.columns) table
      × (insert_rows py before model table ≡ ok tt)
      × IsDatabase (table ∷ before) models tables
  IsDatabase before _ _ = ⊥

  -- `hexdigest` of SHA-256.
  module _ (has_64 : (d : Fields A) → py.count (py.digest d) ≡ 64) where
    restored_value-json_value :
        (is_datetime : Bool) (v : Value A)
        → IsTyped is_datetime v
        → restored_value py is_datetime (json_value py v) ≡ ok v
    unfolding restored_value json_value
    restored_value-json_value true (moment t) (_, reads_back) = rw reads_back refl
    restored_value-json_value false (moment t) (e, _) = absurd (ground (arith, e))
    restored_value-json_value true (stored value) (inl e) = absurd (ground (arith, e))
    restored_value-json_value true (stored value) (inr e) = rw e refl
    restored_value-json_value false (stored null) e = refl
    restored_value-json_value false (stored (flag _)) e = refl
    restored_value-json_value false (stored (number _)) e = refl
    restored_value-json_value false (stored (string _)) e = refl
    restored_value-json_value false (stored (list _)) e = refl
    restored_value-json_value false (stored (dict _)) e = refl

    restored_values-Holds :
        (columns : List Column) (vs : List (Value A)) (d : Fields A)
        → IsRow columns vs
        → Holds (λ c. c.name) (λ _ v. json_value py v) columns vs d
        → restored_values py columns d ≡ ok vs
    unfolding restored_values
    restored_values-Holds [] [] d row h = refl
    restored_values-Holds [] (v ∷ vs) d row h = absurd row
    restored_values-Holds (c ∷ cs) [] d row h = absurd row
    restored_values-Holds (c ∷ cs) (v ∷ vs) d (typed, row) (here, there) =
        rw
          (
            restored_values,
            here,
            restored_value-json_value c.is_datetime v typed,
            restored_values-Holds cs vs d row there,
          )
          refl

    IsRow-length :
        (columns : List Column) (vs : List (Value A))
        → IsRow columns vs
        → length columns ≡ length vs
    IsRow-length [] [] row = refl
    IsRow-length [] (v ∷ vs) row = absurd row
    IsRow-length (c ∷ cs) [] row = absurd row
    IsRow-length (c ∷ cs) (v ∷ vs) row = ground (arith, IsRow-length cs vs row.1)

    database_row-row_dict :
        (model : Model) (vs : List (Value A))
        → has_duplicates (map (λ c. c.name) model.columns) ≡ false
        → IsRow model.columns vs
        → database_row py model (dict (row_dict py model.columns vs)) ≡ ok vs
    unfolding database_row row_dict
    database_row-row_dict model vs new row =
        rw
          (
            keys-comprehension (λ c. c.name) (λ _ v. json_value py v) model.columns vs
                (IsRow-length model.columns vs row),
            same_set_refl (map (λ c. c.name) model.columns),
            restored_values-Holds model.columns vs _ row
                (comprehension-Holds (λ c. c.name) (λ _ v. json_value py v) model.columns vs new),
          )
          refl

    database_rows-rows_list :
        (model : Model) (table : Table A)
        → has_duplicates (map (λ c. c.name) model.columns) ≡ false
        → All (IsRow model.columns) table
        → database_rows py model (rows_list py model.columns table) ≡ ok table
    unfolding database_rows rows_list
    database_rows-rows_list model [] new rows = refl
    database_rows-rows_list model (vs ∷ table) new (row, rows) =
        rw (database_row-row_dict model vs new row, database_rows-rows_list model table new rows)
          refl

    inserted-Holds :
        (before : List (Table A)) (models : List Model) (tables : List (Table A)) (d : Fields A)
        → All (λ m. has_duplicates (map (λ c. c.name) m.columns) ≡ false) models
        → IsDatabase before models tables
        → Holds (λ m. m.tablename) (λ m t. list (rows_list py m.columns t)) models tables d
        → inserted py before models d ≡ ok tables
    unfolding inserted table_rows
    inserted-Holds before [] [] d new db h = refl
    inserted-Holds before [] (t ∷ ts) d new db h = absurd db
    inserted-Holds before (m ∷ ms) [] d new db h = absurd db
    inserted-Holds before (m ∷ ms) (t ∷ ts) d (n, new) (rows, admitted, db) (here, there) =
        rw
          (
            here,
            table_rows,
            database_rows-rows_list m t n rows,
            admitted,
            inserted-Holds (t ∷ before) ms ts d new db there,
          )
          refl

    IsDatabase-length :
        (before : List (Table A)) (models : List Model) (tables : List (Table A))
        → IsDatabase before models tables
        → length models ≡ length tables
    IsDatabase-length before [] [] db = refl
    IsDatabase-length before [] (t ∷ ts) db = absurd db
    IsDatabase-length before (m ∷ ms) [] db = absurd db
    IsDatabase-length before (m ∷ ms) (t ∷ ts) (rows, admitted, db) =
        ap suc (IsDatabase-length (t ∷ before) ms ts db)

    compare_digest_hex_refl :
        (d : Fields A) → compare_digest_hex py (py.digest d) (py.digest d) ≡ true
    unfolding compare_digest_hex
    compare_digest_hex_refl d = rw (compare_digest_hex, has_64 d, str_eq_refl (py.digest d)) refl

    backup_tables-tables_dict :
        (models : List Model) (tables : List (Table A))
        → length models ≡ length tables
        → backup_tables py models (some (dict (tables_dict py models tables)))
          ≡ ok (tables_dict py models tables)
    unfolding backup_tables tables_dict
    backup_tables-tables_dict models tables same =
        rw
          (
            keys-comprehension (λ m. m.tablename) (λ m t. list (rows_list py m.columns t)) models
                tables same,
            same_set_refl (map (λ m. m.tablename) models),
          )
          refl

    validate-create_backup :
        (models : List Model) (tables : List (Table A)) (version now : String)
        → length models ≡ length tables
        → validate_backup py models (create_backup py models version now tables)
          ≡ ok (tables_dict py models tables)
    unfolding validate_backup create_backup is_signed is_text get unsigned
    validate-create_backup models tables version now same =
        rw (compare_digest_hex_refl, backup_tables-tables_dict models tables same) refl

    -- A database whose tables and columns have different names and whose rows hold values of
    -- their columns is restored exactly from its backup, into any database, with the number
    -- of rows of each table, provided the ISO texts of its times read back, the digest has 64
    -- characters, and the database takes the rows of each table behind those of the tables
    -- before.
    pub restore-create_backup :
        (models : List Model) (tables old : List (Table A)) (version now : String)
        → IsSchema models
        → IsDatabase [] models tables
        → restore_backup py models (create_backup py models version now tables) old
          ≡ (ok (map length tables), tables)
    unfolding restore_backup tables_dict
    restore-create_backup models tables old version now schema db =
        rw
          (
            restore_backup,
            validate-create_backup models tables version now
                (IsDatabase-length [] models tables db),
            inserted-Holds [] models tables _ schema.columns_differ db (
                comprehension-Holds (λ m. m.tablename) (λ m t. list (rows_list py m.columns t))
                  models tables schema.tables_differ),
          )
          refl
