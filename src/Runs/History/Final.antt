-- ===== src/Runs/History/Final.antt =====
-- What no sequence of calls can do to a run.
use depotflux_demo.Prelude.{
  err, ℕ, zero, suc, ◌≡◌, ap, ◌∙◌, true, Option, none, some, List, [], ◌∷◌, ◌++◌, String,
  Option-cases, inl, inr, arith,
}
use depotflux_demo.Runs.Status.{queued, is_terminal, is_allowed}
use depotflux_demo.Runs.Json.{Fields}
use depotflux_demo.Runs.Row.{store, RunCreateRequest, RunRow, Runs, find}
use depotflux_demo.Runs.Table.{find-id}
use depotflux_demo.Runs.Repository.{not_found, get_row}
use depotflux_demo.Runs.Claim.{
  claimed, read_claimed, claim_rounds, claim_next, oldest_queued, queued_row,
}
use depotflux_demo.Runs.Claim.Exclusive.{queued_row_held, idle_round, lost_round, won_round}
use depotflux_demo.Runs.Create.{
  is_taken, given, after_collision, find_by_key, existing_run, insert_row, create,
}
use depotflux_demo.Runs.Lifecycle.{
  Follows, Follows-refl, Evolves, unchanged-Evolves, stored-Evolves, if-Evolves,
}
use depotflux_demo.Runs.Lifecycle.Methods.{
  transition-Evolves, request_cancellation-Evolves, fail-Evolves, recover_stale-Evolves,
  complete-Evolves, complete_degraded-Evolves,
}
use depotflux_demo.Runs.History.{
  Call, create_run, claim, finish, finish_degraded, fail_run, recover, cancel, move, perform,
  perform_all,
}

module _ {A : Type 0} where
  find-append :
      (j : ℕ) (db : Runs A) (new row : RunRow A)
      → find j db ≡ some row
      → find j (db ++ new ∷ []) ≡ some row
  unfolding find
  find-append j [] new row e = cc
  find-append j (old ∷ db) new row e = ground (arith, find-append j db new row)

  after_collision-Evolves :
      (key : Option String) (fingerprint : String) (db : Runs A)
      → Evolves db (after_collision key fingerprint db)
  unfolding after_collision
  after_collision-Evolves none fingerprint db = unchanged-Evolves db _
  after_collision-Evolves (some key) fingerprint db = elim (Option-cases (find_by_key key db)) [
    | inl e ↦ rw (e, after_collision) (unchanged-Evolves db _)
    | inr (existing, e) ↦ rw (e, after_collision) (unchanged-Evolves db _)
  ]

  insert_row-Evolves :
      (row : RunRow A) (fingerprint : String) (db : Runs A)
      → Evolves db (insert_row row fingerprint db)
  unfolding insert_row
  insert_row-Evolves row fingerprint db =
      if-Evolves db (is_taken row db) _ _
        (λ _. after_collision-Evolves (given row.idempotency_key) fingerprint db)
        λ _. record { follows = λ j old e. (old, find-append j db row old e, Follows-refl old) }

  pub create-Evolves :
      (request_fingerprint : RunCreateRequest → String) (request : RunCreateRequest)
      (requested_by : String) (key : Option String) (new_id now : ℕ) (db : Runs A)
      → Evolves db (create request_fingerprint (λ t. t) request requested_by key new_id now db)
  unfolding create
  create-Evolves request_fingerprint request user key new_id now db =
      elim (Option-cases (existing_run (given key) db)) [
        | inl e ↦ rw (e, create) (insert_row-Evolves _ _ db)
        | inr (existing, e) ↦ rw (e, create) (unchanged-Evolves db _)
      ]

  claimed-Follows :
      (worker_id : String) (now : ℕ) (row : RunRow A)
      → row.status ≡ queued
      → Follows row (claimed worker_id now row)
  unfolding claimed is_allowed is_terminal
  claimed-Follows worker_id now row h = ground arith

  read_claimed_reads : (run_id : ℕ) (db : Runs A) → (read_claimed run_id db).1 ≡ db
  unfolding read_claimed get_row
  read_claimed_reads run_id db = ground arith

  read_claimed-Evolves :
      (run_id : ℕ) (db db' : Runs A)
      → Evolves db {B = RunRow A} (err not_found, db')
      → Evolves db (read_claimed run_id db')
  read_claimed-Evolves run_id db db' h = record {
    follows = λ j row e. rw (read_claimed_reads run_id db') (h.follows j row e);
  }

  claim_rounds-Evolves :
      (left : ℕ) (worker_id : String) (now : ℕ) (db : Runs A)
      → Evolves db (claim_rounds left (λ _ t. t) worker_id now db)
  claim_rounds-Evolves zero worker_id now db = unfold claim_rounds in unchanged-Evolves db _
  claim_rounds-Evolves (suc left) worker_id now db = elim (Option-cases (oldest_queued db)) [
    | inl idle ↦ rw (idle_round left (λ _ t. t) worker_id now db idle) (unchanged-Evolves db _)
    | inr (chosen, c) ↦ elim (Option-cases (queued_row chosen.id db)) [
      | inl lost ↦
          rw (lost_round left (λ _ t. t) worker_id now db chosen c lost)
            (claim_rounds-Evolves left worker_id now db)
      | inr (old, q) ↦
          let held = queued_row_held chosen.id db old q in
          rw (won_round left (λ _ t. t) worker_id now db chosen old c q) (
            read_claimed-Evolves chosen.id db (store (claimed worker_id now old) db) (
              stored-Evolves db _ old (claimed worker_id now old)
                (ap (λ k. find k db) (find-id chosen.id db old held.0) ∙ held.0)
                (claimed-Follows worker_id now old held.1)))
    ]
  ]

module _ {A : Type 0} (fingerprint : RunCreateRequest → String)
    (digest : Fields A → Option String) where
  -- What one call makes of a run.
  abbrev pub Becomes : Call A → Runs A → ℕ → RunRow A → Type 0
  Becomes call db j row =
      (row' : RunRow A) × (find j (perform fingerprint digest call db) ≡ some row')
      × Follows row row'

  -- One call on the table loses no run, changes neither its id, key, fingerprint, request,
  -- requester nor creation time, moves its status along the allowed transitions or from RUNNING
  -- back to QUEUED, and leaves a terminal run as it is.
  pub perform-Follows :
      (call : Call A) (db : Runs A) (j : ℕ) (row : RunRow A)
      → find j db ≡ some row
      → Becomes call db j row
  unfolding perform claim_next
  perform-Follows (create_run request user key new_id now) db j row e =
      (create-Evolves fingerprint request user key new_id now db).follows j row e
  perform-Follows (claim worker_id now) db j row e =
      (claim_rounds-Evolves 10 worker_id now db).follows j row e
  perform-Follows (finish run_id payload now) db j row e =
      (complete-Evolves digest run_id payload now db).follows j row e
  perform-Follows (finish_degraded run_id payload code message now) db j row e =
      (complete_degraded-Evolves digest run_id payload code message now db).follows j row e
  perform-Follows (fail_run run_id status code message now) db j row e =
      (fail-Evolves run_id status code message now db).follows j row e
  perform-Follows (recover stale_after now) db j row e =
      (recover_stale-Evolves stale_after now db).follows j row e
  perform-Follows (cancel run_id now) db j row e =
      (request_cancellation-Evolves run_id now db).follows j row e
  perform-Follows (move run_id target code message now) db j row e =
      (transition-Evolves run_id target code message now db).follows j row e

  -- A run of the table that has reached a terminal state is still there after any sequence of
  -- calls, unchanged in every column.
  pub terminal_run_is_final :
      (calls : List (Call A)) (db : Runs A) (j : ℕ) (row : RunRow A)
      → find j db ≡ some row
      → is_terminal row.status ≡ true
      → find j (perform_all fingerprint digest calls db) ≡ some row
  unfolding perform_all
  terminal_run_is_final [] db j row e h = e
  terminal_run_is_final (call ∷ calls) db j row e h =
      let (row', e', f) = perform-Follows call db j row e in
      terminal_run_is_final calls (perform fingerprint digest call db) j row
        (e' ∙ ap some (f.terminal_fixed h)) h
