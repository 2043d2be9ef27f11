-- ===== src/Simulations/Once.antt =====
-- A run and an interval have one simulated write.
use mathlib.Core.Path.{subst}
use depotflux_demo.Prelude.{
  ℕ, ◌≡◌, refl, ap, ◌∙◌, inl, inr, Option, none, some, [], ◌∷◌, ◌++◌, String, Result, ok, err,
  Option-cases, Bool-cases, Result-cases, arith,
}
use depotflux_demo.Floats.{Floats}
use depotflux_demo.Runs.Json.{Fields}
use depotflux_demo.Runs.Row.{RunRow, Runs, find}
use depotflux_demo.Runs.Table.{find-id}
use depotflux_demo.Approvals.{Approvals, find_approval}
use depotflux_demo.Schedule.{Conversions}
use depotflux_demo.Simulations.{
  SimulationRow, SimulationError, SimulationCall, Simulations, find_simulation, has_simulation_id,
  check_candidate, insert_simulation, commit_simulation, create_simulation,
}
use depotflux_demo.Simulations.Policy.{check_candidate-IsSimulated}

module _ ⦃F : Floats⦄ where
  -- The row of an answer is the one that the table has for the run and the interval.
  abbrev Held : ℕ → ℕ → Result SimulationError SimulationRow × Simulations → Type 0
  Held run_id interval_index (ok row, db) = find_simulation run_id interval_index db ≡ some row
  Held run_id interval_index (err _, db) = Unit

  find_simulation-append :
      (run_id interval_index : ℕ) (new : SimulationRow) (db : Simulations)
      → find_simulation run_id interval_index db ≡ none
      → new.run_id ≡ run_id
      → new.interval_index ≡ interval_index
      → find_simulation run_id interval_index (db ++ new ∷ []) ≡ some new
  unfolding find_simulation
  find_simulation-append run_id interval_index new [] e r i = ground (arith, r, i)
  find_simulation-append run_id interval_index new (row ∷ db) e r i =
      ground (arith, e, find_simulation-append run_id interval_index new db)

  insert_simulation-Held :
      (row : SimulationRow) (db : Simulations)
      → Held row.run_id row.interval_index (insert_simulation row db)
  unfolding insert_simulation
  insert_simulation-Held row db =
      elim (Option-cases (find_simulation row.run_id row.interval_index db)) [
        | inr (existing, e) ↦ rw (e, insert_simulation) e
        | inl free ↦ elim (Bool-cases (has_simulation_id row.id db)) [
          | inl taken ↦ rw (free, insert_simulation) (rw taken tt)
          | inr new ↦
              rw (free, insert_simulation)
                (rw new
                  (find_simulation-append row.run_id row.interval_index row db free refl refl))
        ]
      ]

  module _ (py : Conversions) (load : String → String → Option (Fields F.Float)) where
    create_simulation-Held :
        (others : Simulations → Simulations) (runs : Runs F.Float) (approvals : Approvals)
        (run_id : ℕ) (call : SimulationCall) (db : Simulations)
        → Held run_id call.interval_index
            (create_simulation py load others runs approvals run_id call db)
    unfolding create_simulation commit_simulation
    create_simulation-Held others runs approvals run_id call db =
        elim (Option-cases (find run_id runs)) [
          | inl missing ↦ rw (missing, create_simulation) tt
          | inr (run, found) ↦ elim (Option-cases (find_simulation run_id call.interval_index db)) [
            | inr (existing, e) ↦ rw (found, create_simulation) (rw e e)
            | inl free ↦
                elim (Result-cases
                  (check_candidate py load call run (find_approval run_id approvals))) [
                    | inr (error, refused) ↦ rw (found, create_simulation) (rw free (rw refused tt))
                    | inl (row, planned) ↦
                        let framed =
                          (check_candidate-IsSimulated py load call run
                            (find_approval run_id approvals) row planned).framed in
                        let of_run : row.run_id ≡ run_id =
                          framed.for_run ∙ find-id run_id runs run found in
                        rw (found, create_simulation)
                          (rw free (
                            rw planned (
                              subst
                                (λ j.
                                  Held j call.interval_index (insert_simulation row (others db)))
                                of_run
                                (subst (λ i. Held row.run_id i (insert_simulation row (others db)))
                                  framed.for_interval (insert_simulation-Held row (others db))))))
                  ]
          ]
        ]

    -- After a simulated write for a run and an interval was answered with a row, whatever
    -- other sessions committed inside, every later call for them finds this row and changes
    -- nothing, as long as the run exists, whatever became of its approval.
    pub create_simulation_retry :
        (others others' : Simulations → Simulations) (runs runs' : Runs F.Float)
        (approvals approvals' : Approvals) (run_id : ℕ) (call call' : SimulationCall)
        (db db' : Simulations) (row : SimulationRow) (run : RunRow F.Float)
        → call'.interval_index ≡ call.interval_index
        → create_simulation py load others runs approvals run_id call db ≡ (ok row, db')
        → find run_id runs' ≡ some run
        → create_simulation py load others' runs' approvals' run_id call' db' ≡ (ok row, db')
    unfolding create_simulation
    create_simulation_retry others others' runs runs' approvals approvals' run_id call call' db db'
          row run same answered found =
        let held : find_simulation run_id call.interval_index db' ≡ some row =
          subst (Held run_id call.interval_index) answered
            (create_simulation-Held others runs approvals run_id call db) in
        let held' : find_simulation run_id call'.interval_index db' ≡ some row =
          ap (λ i. find_simulation run_id i db') same ∙ held in
        rw (found, create_simulation) (rw held' refl)
