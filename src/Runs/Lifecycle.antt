-- ===== src/Runs/Lifecycle.antt =====
-- What may become of the runs that the table of aggregator_demo/run_repository.py holds.
pub mod Methods
use depotflux_demo.Prelude.{
  ℕ, ◌+◌, ◌≡◌, refl, sym, ap, ◌∙◌, ◌⊎◌, inl, inr, Bool, true, false, not, ◌&&◌, ◌||◌, Option, none,
  some, List, [], ◌∷◌, String, ltb, ◌==◌, ==_iff, if◌then◌else◌, Bool-cases, Option-cases, Result,
  ok, err, and_then, and_then_keeps, arith,
}
use mathlib.Core.Path.{subst}
use depotflux_demo.Prelude.Int.{ℤ, pos, negsuc}
use depotflux_demo.Runs.Status.{
  RunStatus, queued, running, succeeded, failed, infeasible, timed_out, cancel_requested, cancelled,
  degraded, is, is_terminal, is_allowed,
}
use depotflux_demo.Runs.Json.{Fields}
use depotflux_demo.Runs.Row.{RunCreateRequest, RunRow, Runs, find, store}
use depotflux_demo.Runs.Table.{find-id, find-store}
use depotflux_demo.Runs.Repository.{
  RunError, not_found, conflict, value_error, get_row, moved, transition, result,
  request_cancellation, is_failure_status, fail, cancelled_before_result, with_result, is_stale,
  recovered, recover_rows, recover_stale, commit_result, complete, complete_degraded,
}

-- A status stays, goes along `ALLOWED_TRANSITIONS`, or goes back from RUNNING to the queue.
abbrev pub Moves : RunStatus → RunStatus → Type 0
Moves old new = (old ≡ new) ⊎ ((is_allowed old new ≡ true) ⊎ ((old ≡ running) × (new ≡ queued)))

module _ {A : Type 0} where
  -- What a run may become: its identity and its request are fixed, its status moves as above, and
  -- once it is terminal nothing of it changes.
  pub record Follows (old new : RunRow A) : Type 0 where
    pub same_id : new.id ≡ old.id
    pub same_key : new.idempotency_key ≡ old.idempotency_key
    pub same_fingerprint : new.request_fingerprint ≡ old.request_fingerprint
    pub same_request : new.request ≡ old.request
    pub same_requester : new.requested_by ≡ old.requested_by
    pub same_creation : new.created_at ≡ old.created_at
    pub status_moves : Moves old.status new.status
    pub terminal_fixed : is_terminal old.status ≡ true → new ≡ old

  pub Follows-refl : (row : RunRow A) → Follows row row
  Follows-refl row = record {
    same_id = refl;
    same_key = refl;
    same_fingerprint = refl;
    same_request = refl;
    same_requester = refl;
    same_creation = refl;
    status_moves = inl refl;
    terminal_fixed = λ _. refl;
  }

  -- A method that ends in `outcome`, from the table `db`: every run that the table held is still
  -- there, and has become what it may become.
  pub record Evolves (db : Runs A) {B : Type 0} (outcome : Result RunError B × Runs A)
      : Type 0 where
    pub follows :
        (j : ℕ) (row : RunRow A)
        → find j db ≡ some row
        → (row' : RunRow A) × (find j outcome.1 ≡ some row') × Follows row row'

  pub unchanged-Evolves : {B : Type 0} (db : Runs A) (r : Result RunError B) → Evolves db (r, db)
  unchanged-Evolves db r = record { follows = λ j row e. (row, e, Follows-refl row) }

  pub stored_run :
      (j : ℕ) (db : Runs A) (old new row : RunRow A)
      → find old.id db ≡ some old
      → Follows old new
      → find j db ≡ some row
      → (row' : RunRow A) × (find j (store new db) ≡ some row') × Follows row row'
  stored_run j db old new row held f e =
      let held' : find new.id db ≡ some old = ap (λ k. find k db) f.same_id ∙ held in
      let found = find-store j new db old held' in
      elim (Bool-cases (new.id == j)) [
        | inl this ↦
            let here : find j db ≡ some old =
              ap (λ k. find k db) (sym ((==_iff new.id j).0 this)) ∙ held' in
            let same : old ≡ row = cc in (new, found ∙ rw this, subst (λ r. Follows r new) same f)
        | inr other ↦ (row, found ∙ rw other e, Follows-refl row)
      ]

  pub stored-Evolves :
      {B : Type 0} (db : Runs A) (r : Result RunError B) (old new : RunRow A)
      → find old.id db ≡ some old
      → Follows old new
      → Evolves db (r, store new db)
  stored-Evolves db r old new held f = record {
    follows = λ j row e. stored_run j db old new row held f e;
  }

  pub if-Evolves :
      {B : Type 0} (db : Runs A) (b : Bool) (x y : Result RunError B × Runs A)
      → (b ≡ true → Evolves db x)
      → (b ≡ false → Evolves db y)
      → Evolves db (if b then x else y)
  if-Evolves db true x y hx hy = hx refl
  if-Evolves db false x y hx hy = hy refl

  pub get_row_missing :
      (run_id : ℕ) (db : Runs A) → find run_id db ≡ none → get_row run_id db ≡ (err not_found, db)
  unfolding get_row
  get_row_missing run_id db e = ground arith

  pub get_row_held :
      (run_id : ℕ) (db : Runs A) (row : RunRow A)
      → find run_id db ≡ some row
      → get_row run_id db ≡ (ok row, db)
  unfolding get_row
  get_row_held run_id db row e = ground arith

  -- A method that begins with `_get_row`.
  pub get_row-Evolves :
      {B : Type 0} (run_id : ℕ) (db : Runs A) (f : RunRow A → Runs A → Result RunError B × Runs A)
      → ((row : RunRow A) → find row.id db ≡ some row → Evolves db (f row db))
      → Evolves db (and_then (get_row run_id db) f)
  get_row-Evolves run_id db f h = elim (Option-cases (find run_id db)) [
    | inl missing ↦ rw (get_row_missing run_id db missing) (unchanged-Evolves db (err not_found))
    | inr (row, held) ↦
        rw (get_row_held run_id db row held)
          (h row (ap (λ k. find k db) (find-id run_id db row held) ∙ held))
  ]

  -- `result` reads the table and leaves it alone.
  pub result_reads : (run_id : ℕ) (db : Runs A) → (result run_id db).1 ≡ db
  unfolding result get_row
  result_reads run_id db = ground arith

  pub result-Evolves :
      (run_id : ℕ) (db db' : Runs A)
      → Evolves db {B = RunRow A} (err not_found, db')
      → Evolves db (result run_id db')
  result-Evolves run_id db db' h = record {
    follows = λ j row e. rw (result_reads run_id db') (h.follows j row e);
  }
