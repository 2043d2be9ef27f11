-- ===== src/Worker/Settles.antt =====
-- A run in the hands of the worker ends, if the columns take the texts that it is given.
use mathlib.Core.Path.{subst}
use depotflux_demo.Prelude.{
  ℕ, ◌≡◌, refl, sym, ap, ◌∙◌, ◌⊎◌, inl, inr, Bool, true, false, ◌&&◌, Option, none, some, List,
  String, Result, ok, err, and_then, Option-cases, arith,
}
use depotflux_demo.Floats.{Floats}
use depotflux_demo.Runs.Status.{
  RunStatus, running, succeeded, failed, infeasible, timed_out, cancel_requested, cancelled,
  degraded, is, is_terminal, is_allowed,
}
use depotflux_demo.Runs.Json.{Fields, get}
use depotflux_demo.Runs.Row.{RunRow, Runs, find, store}
use depotflux_demo.Runs.Table.{find-id, find-store}
use depotflux_demo.Runs.Lifecycle.{get_row_held}
use depotflux_demo.Runs.Repository.{
  RunError, value_error, text_length, fits, storable, names_solver, get_row, moved, transition,
  result, is_failure_status, fail, cancelled_before_result, with_result, commit_result, complete,
  complete_degraded, recover_rows, recover_stale,
}
use depotflux_demo.Worker.{
  WorkError, input_failed, notice_not_found, optimization_infeasible, optimization_timeout,
  invalid_result, not_implemented, unexpected, Optimizers, has_passing_validation, handle, rescue,
  commit_candidate, settle, Clock, optimize_candidate, execute_claimed, execute_one,
}
use depotflux_demo.Prelude.Int.{pos}
use depotflux_demo.Worker.Texts.{IsStorable, CanSettle, ShortTexts, optimize_candidate-CanSettle}
use depotflux_demo.Notices.{NoticeRow}
use depotflux_demo.Runs.Claim.{claim_next}

-- The states of a run in the hands of a worker.
abbrev pub InHand : RunStatus → Type 0
InHand status = (status ≡ running) ⊎ (status ≡ cancel_requested)

module _ {A : Type 0} where
  -- The method returned the run, and it is in the table, in a terminal state. No other run of
  -- the table `db` has changed.
  pub record Ends (run_id : ℕ) (db : Runs A) (outcome : Result RunError (RunRow A) × Runs A)
      : Type 0 where
    pub row : RunRow A
    pub returned : outcome.0 ≡ ok row
    pub stored : outcome.1 ≡ store row db
    pub held : find run_id outcome.1 ≡ some row
    pub ended : is_terminal row.status ≡ true

  -- The run ended, in the table that the optimization left, which is else unchanged.
  pub record Executed (run_id : ℕ) (db : Runs A) (outcome : Result RunError Bool × Runs A)
      : Type 0 where
    pub row : RunRow A
    pub returned : outcome ≡ (ok true, store row db)
    pub held : find run_id (store row db) ≡ some row
    pub ended : is_terminal row.status ≡ true

  find-stored :
      (run_id : ℕ) (db : Runs A) (old new : RunRow A)
      → find run_id db ≡ some old
      → new.id ≡ old.id
      → find run_id (store new db) ≡ some new
  find-stored run_id db old new held same =
      let named : new.id ≡ run_id = same ∙ find-id run_id db old held in
      let held' : find new.id db ≡ some old = ap (λ k. find k db) named ∙ held in
      find-store run_id new db old held' ∙ ground (arith, named)

  result-Ends :
      (run_id : ℕ) (db : Runs A) (old new : RunRow A)
      → find run_id db ≡ some old
      → new.id ≡ old.id
      → is_terminal new.status ≡ true
      → Ends run_id db (result run_id (store new db))
  unfolding result
  result-Ends run_id db old new held same ends =
      let found = find-stored run_id db old new held same in
      rw (get_row_held run_id (store new db) new found)
        (rw ends (record { row = new; returned = refl; stored = refl; held = found; ended = ends }))

  transition-result :
      (run_id : ℕ) (target : RunStatus) (code message : Option String) (now : ℕ) (db : Runs A)
      (row : RunRow A)
      → find run_id db ≡ some row
      → is row.status target ≡ false
      → is_allowed row.status target ≡ true
      → is_terminal target ≡ true
      → storable code message ≡ true
      → Ends run_id db
          (and_then (transition run_id target code message now db) (λ _ db. result run_id db))
  unfolding transition moved
  transition-result run_id target code message now db row held moves allowed ends short =
      rw (get_row_held run_id db row held) (
        rw moves (
          rw allowed (
            rw short
              (result-Ends run_id db row (moved target code message now row) held refl ends))))

  pub fail-Ends :
      (run_id : ℕ) (status : RunStatus) (code message : String) (now : ℕ) (db : Runs A)
      (row : RunRow A)
      → find run_id db ≡ some row
      → InHand row.status
      → is_failure_status status ≡ true
      → storable (some code) (some message) ≡ true
      → Ends run_id db (fail run_id status code message now db)
  unfolding fail is_failure_status is_allowed is_terminal storable fits text_length
  fail-Ends run_id status code message now db row held (inl runs) failure short = rw failure (
      rw (get_row_held run_id db row held) (
        rw runs (
          transition-result run_id status (some code) (some message) now db row held
            (ground (arith, runs, failure)) (ground (arith, runs, failure))
            (ground (arith, failure)) short)))
  fail-Ends run_id status code message now db row held (inr asked) failure short = rw failure (
      rw (get_row_held run_id db row held) (
        rw asked (
          transition-result run_id cancelled _ _ now db row held (ground (arith, asked))
            (ground (arith, asked)) refl refl)))

  -- A commit of a result: the payload has a digest, or nothing happens.
  commit-Ends :
      (run_id : ℕ) (payload : Fields A) (sha256 : Option String) (status : RunStatus)
      (code message : Option String) (now : ℕ) (db : Runs A) (row : RunRow A)
      → find run_id db ≡ some row
      → InHand row.status
      → is_terminal status ≡ true
      → storable code message && names_solver payload ≡ true
      → Ends run_id db (commit_result run_id payload sha256 status code message now db)
        ⊎ (commit_result run_id payload sha256 status code message now db ≡ (err value_error, db))
  unfolding commit_result cancelled_before_result with_result is_terminal
  commit-Ends run_id payload none status code message now db row held hand ends fine = inr refl
  commit-Ends run_id payload (some sha256) status code message now db row held (inl runs) ends
        fine =
      inl (
        rw (get_row_held run_id db row held) (
          rw runs (
            rw fine (
              result-Ends run_id db row (with_result payload sha256 status code message now row)
                held refl ends))))
  commit-Ends run_id payload (some sha256) status code message now db row held (inr asked) ends
        fine =
      inl (
        rw (get_row_held run_id db row held)
          (rw asked (result-Ends run_id db row (cancelled_before_result now row) held refl refl)))

module _ ⦃F : Floats⦄ (py : Optimizers) (short : ShortTexts py) where
  named :
      {A : Type 0} (payload : Fields A)
      → names_solver payload ≡ true
      → (code message : Option String) → storable code message ≡ true
      → storable code message && names_solver payload ≡ true
  named payload h code message h' = ground (arith, h, h')

  code_short :
      (text : String)
      → fits 1000 (some text) ≡ true
      → (code : String) → fits 64 (some code) ≡ true
      → storable (some code) (some text) ≡ true
  unfolding storable
  code_short text h code h' = ground (arith, h, h')

  handle-Ends :
      (run_id : ℕ) (error : WorkError) (now : ℕ) (db : Runs F.Float) (row : RunRow F.Float)
      → find run_id db ≡ some row
      → InHand row.status
      → IsStorable error
      → Ends run_id db (handle py run_id error now db)
  unfolding handle is_failure_status fits text_length
  handle-Ends run_id (input_failed code text) now db row held hand fine =
      fail-Ends run_id failed _ _ now db row held hand refl fine
  handle-Ends run_id (notice_not_found text) now db row held hand fine =
      fail-Ends run_id failed _ _ now db row held hand refl (code_short text fine _ refl)
  handle-Ends run_id (optimization_infeasible text) now db row held hand fine =
      fail-Ends run_id infeasible _ _ now db row held hand refl (code_short text fine _ refl)
  handle-Ends run_id (optimization_timeout text) now db row held hand fine =
      fail-Ends run_id timed_out _ _ now db row held hand refl (code_short text fine _ refl)
  handle-Ends run_id (invalid_result text) now db row held hand fine =
      fail-Ends run_id failed _ _ now db row held hand refl (code_short text fine _ refl)
  handle-Ends run_id (not_implemented text) now db row held hand fine =
      fail-Ends run_id failed _ _ now db row held hand refl (code_short text fine _ refl)
  handle-Ends run_id (unexpected text) now db row held hand fine =
      fail-Ends run_id failed _ _ now db row held hand refl (code_short text fine _ refl)

  rescue-Ends :
      (run_id now : ℕ) (db : Runs F.Float) (row : RunRow F.Float)
      (outcome : Result RunError (RunRow F.Float) × Runs F.Float)
      → find run_id db ≡ some row
      → InHand row.status
      → Ends run_id db outcome ⊎ (outcome ≡ (err value_error, db))
      → Ends run_id db (rescue py run_id now outcome)
  unfolding rescue
  rescue-Ends run_id now db row (ok row', db') held hand (inl ends) = ends
  rescue-Ends run_id now db row (err error, db') held hand (inl ends) =
      absurd (raised ends.returned)
    where
      raised :
          {x : RunRow F.Float} → ◌≡◌ {A = Result RunError (RunRow F.Float)} (err error) (ok x) → ⊥
      raised e = cc e
  rescue-Ends run_id now db row outcome held hand (inr failure) =
      subst (λ o. Ends run_id db (rescue py run_id now o)) (sym failure)
        (handle-Ends run_id _ now db row held hand (short.describes_short _))

  module _ (digest : Fields F.Float → Option String) where
    -- Whatever the outcome of the optimization, settling a run in hand returns it in a terminal
    -- state.
    pub settle-Ends :
        (run_id : ℕ) (outcome : Result WorkError (Fields F.Float)) (now : ℕ) (db : Runs F.Float)
        (row : RunRow F.Float)
        → find run_id db ≡ some row
        → InHand row.status
        → CanSettle outcome
        → Ends run_id db (settle py digest run_id outcome now db)
    unfolding settle commit_candidate complete complete_degraded is_terminal storable fits
        text_length
    settle-Ends run_id (err error) now db row held hand fine =
        handle-Ends run_id error now db row held hand fine
    settle-Ends run_id (ok payload) now db row held hand fine =
        elim (Option-cases (has_passing_validation (get "validation" payload))) [
          | inl broken ↦
              rw (broken, commit_candidate)
                (handle-Ends run_id _ now db row held hand (short.describes_short _))
          | inr (true, passed) ↦
              rw (passed, commit_candidate)
                (rescue-Ends run_id now db row _ held hand (
                  commit-Ends run_id payload (digest payload) succeeded none none now db row held
                    hand refl (named payload fine none none refl)))
          | inr (false, unpassed) ↦
              rw (unpassed, commit_candidate)
                (rescue-Ends run_id now db row _ held hand (
                  commit-Ends run_id payload (digest payload) degraded _ _ now db row held hand refl
                    (named payload fine (some "deterministic_validation_failed")
                      (some
                        "The solver returned a candidate, but deterministic operational validation did not pass.")
                      refl)))
        ]

    settled-Executed :
        (run_id : ℕ) (db : Runs F.Float) (outcome : Result RunError (RunRow F.Float) × Runs F.Float)
        → Ends run_id db outcome
        → Executed run_id db
            (and_then outcome λ _ db. and_then (get_row run_id db) λ _ db. (ok true, db))
    settled-Executed run_id db (ok settled, db') ends = record {
      row = ends.row;
      returned =
          rw (get_row_held run_id db' ends.row ends.held) (ap (λ t. (ok true, t)) ends.stored);
      held = rw (sym ends.stored) ends.held;
      ended = ends.ended;
    }
    settled-Executed run_id db (err error, db') ends = absurd (raised ends.returned)
      where
        raised :
            {x : RunRow F.Float} → ◌≡◌ {A = Result RunError (RunRow F.Float)} (err error) (ok x) → ⊥
        raised e = cc e

    pub execute_claimed-Executed :
        (meanwhile : Runs F.Float → Runs F.Float) (notices : List NoticeRow) (now : ℕ)
        (run row : RunRow F.Float) (db : Runs F.Float)
        → find run.id (meanwhile db) ≡ some row
        → InHand row.status
        → Executed run.id
            (meanwhile db)
            (execute_claimed py digest meanwhile notices now (some run) db)
    unfolding execute_claimed
    execute_claimed-Executed meanwhile notices now run row db held hand =
        settled-Executed run.id (meanwhile db) _ (
          settle-Ends run.id (optimize_candidate py run db notices) now (meanwhile db) row held hand
            (optimize_candidate-CanSettle py short run db notices))

    -- When the claim behind the recovery hands a run out and the run is still running or
    -- asked to cancel after what other sessions commit during the optimization, execute_one
    -- returns true with the run in a terminal state and no other run changed, whatever the
    -- optimizers, the input registry and the notices do, provided the columns take what they
    -- name: no error code and no solver name of more than 64 characters, and no exception
    -- text of more than 1000.
    pub execute_one-Executed :
        (others : ℕ → Runs F.Float → Runs F.Float) (meanwhile : Runs F.Float → Runs F.Float)
        (notices : List NoticeRow) (worker_id : String) (stale_after : ℕ) (clock : Clock)
        (db db' : Runs F.Float) (run row : RunRow F.Float)
        → claim_next others worker_id clock.claimed_at
            (recover_rows stale_after clock.recovered_at db)
          ≡ (ok (some run), db')
        → find run.id (meanwhile db') ≡ some row
        → InHand row.status
        → Executed run.id
            (meanwhile db')
            (execute_one py digest others meanwhile notices worker_id (pos stale_after) clock db)
    unfolding execute_one recover_stale
    execute_one-Executed others meanwhile notices worker_id stale_after clock db db' run row claims
          held hand =
        rw claims
          (execute_claimed-Executed meanwhile notices clock.finished_at run row db' held hand)
