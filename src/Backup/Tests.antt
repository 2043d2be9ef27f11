-- ===== src/Backup/Tests.antt =====
-- A backup of one security event, over the tables of the database.
use depotflux_demo.Prelude.{ℕ, ◌≡◌, refl, true, some, List, inl, [], ◌∷◌, map, length, ok}
use depotflux_demo.Runs.Json.{null, string, dict, end}
use depotflux_demo.Auth.{is_one_of, has_duplicates}
use depotflux_demo.Backup.{
  Value, moment, stored, Table, Environment, insert_rows, create_backup, restore_backup,
}
use depotflux_demo.Backup.Models.{backup_models}
use depotflux_demo.Backup.RoundTrip.{IsDatabase, IsSchema, restore-create_backup}

-- All times are one, and the database takes everything.
abbrev frozen : Environment ℕ
frozen = record {
  isoformat = λ _. "2026-01-01T00:00:00+00:00";
  fromisoformat = λ _. some 0;
  digest = λ _. "d";
  count = λ _. 64;
  admits = λ _ _ _. true;
}

abbrev event : List (Value ℕ)
event =
    stored (string "e")
    ∷ stored (string "dispatch_rejected")
    ∷ stored (string "high")
    ∷ stored (string "c")
    ∷ stored null
    ∷ stored (string "ann")
    ∷ stored (string "supervisory")
    ∷ stored (string "controller")
    ∷ stored (string "rejected")
    ∷ stored (string "replayed_command")
    ∷ stored (dict end)
    ∷ moment 0
    ∷ []

abbrev tables : List (Table ℕ)
tables = [] ∷ [] ∷ [] ∷ [] ∷ [] ∷ (event ∷ []) ∷ []

schema : IsSchema backup_models
unfolding backup_models has_duplicates is_one_of
schema = record {
  tables_differ = refl;
  columns_differ = (refl, (refl, (refl, (refl, (refl, (refl, tt))))));
}

database : IsDatabase frozen [] backup_models tables
unfolding backup_models insert_rows
database = (
  tt,
  refl,
  (
    tt,
    refl,
    (
      tt,
      refl,
      (
        tt,
        refl,
        (
          tt,
          refl,
          (
            (
              ((
                inl refl,
                (
                  inl refl,
                  (
                    inl refl,
                    (
                      inl refl,
                      (
                        inl refl,
                        (
                          inl refl,
                          (
                            inl refl,
                            (inl refl, (inl refl, (inl refl, (inl refl, ((refl, refl), tt))))),
                          ),
                        ),
                      ),
                    ),
                  ),
                ),
              )),
              tt,
            ),
            refl,
            tt,
          ),
        ),
      ),
    ),
  ),
)

restore-create_backup_example :
    restore_backup frozen backup_models (create_backup frozen backup_models "v" "now" tables) []
    ≡ (ok (map length tables), tables)
restore-create_backup_example =
    restore-create_backup frozen (λ _. refl) backup_models tables [] "v" "now" schema database
