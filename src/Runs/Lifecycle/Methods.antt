-- ===== src/Runs/Lifecycle/Methods.antt =====
-- The methods of `RunRepository` keep every run in its lifecycle.
use depotflux_demo.Prelude.{
  ℕ, ◌≡◌, refl, inl, inr, true, false, not, Option, none, some, [], ◌∷◌, String, if◌then◌else◌,
  Bool-cases, ok, err, and_then, and_then_keeps, arith,
}
use depotflux_demo.Prelude.Int.{ℤ, pos, negsuc}
use depotflux_demo.Runs.Status.{
  RunStatus, running, succeeded, cancel_requested, degraded, is, is_terminal, is_allowed,
}
use depotflux_demo.Runs.Json.{Fields}
use depotflux_demo.Runs.Row.{RunRow, Runs, find, store}
use depotflux_demo.Runs.Repository.{
  value_error, moved, transition, result, request_cancellation, fail, cancelled_before_result,
  with_result, is_stale, recovered, recover_rows, recover_stale, commit_result, complete,
  complete_degraded,
}
use depotflux_demo.Runs.Lifecycle.{
  Follows, Follows-refl, Evolves, unchanged-Evolves, stored-Evolves, if-Evolves, get_row-Evolves,
  result_reads, result-Evolves,
}

module _ {A : Type 0} where
  moved-Follows :
      (target : RunStatus) (code message : Option String) (now : ℕ) (row : RunRow A)
      → is_allowed row.status target ≡ true
      → Follows row (moved target code message now row)
  unfolding moved is_allowed is_terminal
  moved-Follows target code message now row h = ground arith

  recovered-Follows :
      (stale_after now : ℕ) (row : RunRow A)
      → is_stale stale_after now row ≡ true
      → Follows row (recovered now row)
  unfolding recovered is_stale is_allowed is_terminal
  recovered-Follows stale_after now row h = ground arith

  cancelled-Follows :
      (now : ℕ) (row : RunRow A)
      → is row.status cancel_requested ≡ true
      → Follows row (cancelled_before_result now row)
  unfolding cancelled_before_result is_allowed is_terminal
  cancelled-Follows now row h = ground arith

  with_result-Follows :
      (payload : Fields A) (sha256 : String) (status : RunStatus) (code message : Option String)
      (now : ℕ) (row : RunRow A)
      → is row.status running ≡ true
      → is_allowed running status ≡ true
      → Follows row (with_result payload sha256 status code message now row)
  unfolding with_result is_allowed is_terminal
  with_result-Follows payload sha256 status code message now row h allowed = ground arith

  moved-Evolves :
      (db : Runs A) (row : RunRow A) (target : RunStatus) (code message : Option String) (now : ℕ)
      → find row.id db ≡ some row
      → not (is_allowed row.status target) ≡ false
      → Evolves db {B = RunRow A}
          (ok (moved target code message now row), store (moved target code message now row) db)
  moved-Evolves db row target code message now held allowed =
      stored-Evolves db (ok (moved target code message now row)) row
        (moved target code message now row) held
        (moved-Follows target code message now row (ground arith))

  ruleset evolves_rules = (get_row-Evolves, if-Evolves, unchanged-Evolves)

  pub transition-Evolves :
      (run_id : ℕ) (target : RunStatus) (code message : Option String) (now : ℕ) (db : Runs A)
      → Evolves db (transition run_id target code message now db)
  unfolding transition
  transition-Evolves run_id target code message now db = search (evolves_rules, moved-Evolves)

  -- Asking for the cancellation of one run moves no other, and no run out of its lifecycle.
  pub request_cancellation-Evolves :
      (run_id now : ℕ) (db : Runs A) → Evolves db (request_cancellation run_id now db)
  unfolding request_cancellation
  request_cancellation-Evolves run_id now db = search (evolves_rules, transition-Evolves)

  -- A read of the result behind a transition.
  transition-result-Evolves :
      (run_id : ℕ) (target : RunStatus) (code message : Option String) (now : ℕ) (db : Runs A)
      → Evolves db
          (and_then (transition run_id target code message now db) (λ _ db. result run_id db))
  transition-result-Evolves run_id target code message now db =
      let moves = transition-Evolves run_id target code message now db in
      record {
        follows = λ j row e.
            rw
              (and_then_keeps (transition run_id target code message now db)
                (λ _ db. result run_id db) (λ _ db. result_reads run_id db))
              (moves.follows j row e);
      }

  pub fail-Evolves :
      (run_id : ℕ) (status : RunStatus) (code message : String) (now : ℕ) (db : Runs A)
      → Evolves db (fail run_id status code message now db)
  unfolding fail
  fail-Evolves run_id status code message now db = search (evolves_rules, transition-result-Evolves)

  find-recover_rows :
      (stale_after now j : ℕ) (db : Runs A) (row : RunRow A)
      → find j db ≡ some row
      → find j (recover_rows stale_after now db)
        ≡ some (if is_stale stale_after now row then recovered now row else row)
  unfolding find recover_rows recovered
  find-recover_rows stale_after now j [] row e = cc
  find-recover_rows stale_after now j (old ∷ db) row e =
      ground (arith, find-recover_rows stale_after now j db row)

  swept-Follows :
      (stale_after now : ℕ) (row : RunRow A)
      → Follows row (if is_stale stale_after now row then recovered now row else row)
  swept-Follows stale_after now row = elim (Bool-cases (is_stale stale_after now row)) [
    | inl stale ↦ rw stale (recovered-Follows stale_after now row stale)
    | inr fresh ↦ rw fresh (Follows-refl row)
  ]

  pub recover_stale-Evolves :
      (stale_after : ℤ) (now : ℕ) (db : Runs A) → Evolves db (recover_stale stale_after now db)
  unfolding recover_stale
  recover_stale-Evolves (negsuc _) now db = unchanged-Evolves db (err value_error)
  recover_stale-Evolves (pos stale_after) now db = record {
    follows = λ j row e. (
      (if is_stale stale_after now row then recovered now row else row),
      find-recover_rows stale_after now j db row e,
      swept-Follows stale_after now row,
    );
  }

  cancelled_instead-Evolves :
      (run_id now : ℕ) (db : Runs A) (row : RunRow A)
      → find row.id db ≡ some row
      → is row.status cancel_requested ≡ true
      → Evolves db (result run_id (store (cancelled_before_result now row) db))
  cancelled_instead-Evolves run_id now db row held h =
      result-Evolves run_id db _ (
        stored-Evolves db _ row (cancelled_before_result now row) held
          (cancelled-Follows now row h))

  completed-Evolves :
      (run_id : ℕ) (payload : Fields A) (sha256 : String) (status : RunStatus)
      (code message : Option String) (now : ℕ) (db : Runs A) (row : RunRow A)
      → is_allowed running status ≡ true
      → find row.id db ≡ some row
      → not (is row.status running) ≡ false
      → Evolves db
          (result run_id (store (with_result payload sha256 status code message now row) db))
  completed-Evolves run_id payload sha256 status code message now db row allowed held h =
      result-Evolves run_id db _ (
        stored-Evolves db _ row (with_result payload sha256 status code message now row) held
          (with_result-Follows payload sha256 status code message now row (ground arith) allowed))

  commit_result-Evolves :
      (run_id : ℕ) (payload : Fields A) (sha256 : Option String) (status : RunStatus)
      (code message : Option String) (now : ℕ) (db : Runs A)
      → is_allowed running status ≡ true
      → Evolves db (commit_result run_id payload sha256 status code message now db)
  unfolding commit_result
  commit_result-Evolves run_id payload none status code message now db allowed =
      unchanged-Evolves db (err value_error)
  commit_result-Evolves run_id payload (some sha256) status code message now db allowed =
      search (evolves_rules, cancelled_instead-Evolves, completed-Evolves)

  pub complete-Evolves :
      (digest : Fields A → Option String) (run_id : ℕ) (payload : Fields A) (now : ℕ) (db : Runs A)
      → Evolves db (complete digest run_id payload now db)
  unfolding complete is_allowed
  complete-Evolves digest run_id payload now db =
      commit_result-Evolves run_id payload (digest payload) succeeded none none now db refl

  pub complete_degraded-Evolves :
      (digest : Fields A → Option String) (run_id : ℕ) (payload : Fields A) (code message : String)
      (now : ℕ) (db : Runs A)
      → Evolves db (complete_degraded digest run_id payload code message now db)
  unfolding complete_degraded is_allowed
  complete_degraded-Evolves digest run_id payload code message now db =
      commit_result-Evolves run_id payload (digest payload) degraded (some code) (some message) now
        db refl
