-- ===== src/Runs/Table.antt =====
-- Lookups in the table of runs, behind a commit.
use depotflux_demo.Prelude.{ℕ, ◌≡◌, some, [], ◌∷◌, ◌==◌, if◌then◌else◌, arith}
use depotflux_demo.Runs.Row.{RunRow, Runs, find, store}

module _ {A : Type 0} where
  pub find-id :
      (run_id : ℕ) (db : Runs A) (row : RunRow A) → find run_id db ≡ some row → row.id ≡ run_id
  unfolding find
  find-id run_id [] row e = cc
  find-id run_id (old ∷ db) row e = ground (arith, find-id run_id db row)

  pub find-store :
      (j : ℕ) (new : RunRow A) (db : Runs A) (row : RunRow A)
      → find new.id db ≡ some row
      → find j (store new db) ≡ (if new.id == j then some new else find j db)
  unfolding find store
  find-store j new [] row e = cc
  find-store j new (old ∷ db) row e = ground (arith, find-store j new db row)
