-- ===== src/Worker/Drain.antt =====
-- The queue of a worker that is alone at the table runs empty.
use mathlib.Core.Path.{subst}
use depotflux_demo.Prelude.{
  ℕ, zero, suc, ◌≡◌, refl, sym, ap, ◌∙◌, ◌⊎◌, inl, inr, Bool, true, Option, none, some, List, [],
  ◌∷◌, String, ◌==◌, ==_iff, if◌then◌else◌, Result, ok, Option-cases, Bool-cases, All, arith,
}
use depotflux_demo.Prelude.Int.{pos}
use depotflux_demo.Floats.{Floats}
use depotflux_demo.Runs.Status.{queued, is, is_terminal}
use depotflux_demo.Runs.Json.{Fields}
use depotflux_demo.Runs.Row.{RunRow, Runs, find, store}
use depotflux_demo.Runs.Table.{find-id, find-store}
use depotflux_demo.Runs.Repository.{RunError, get_row, is_stale, recovered, recover_rows}
use depotflux_demo.Runs.Claim.{claimed, read_claimed, queued_row, oldest_queued, claim_next}
use depotflux_demo.Runs.Claim.Exclusive.{HasOldest, oldest_queued_first, won_round}
use depotflux_demo.Notices.{NoticeRow}
use depotflux_demo.Worker.{Optimizers, Clock, execute_one, work_rounds}
use depotflux_demo.Worker.Texts.{ShortTexts}
use depotflux_demo.Worker.Settles.{execute_one-Executed}

module _ {A : Type 0} where
  -- How many runs are queued.
  unfoldable pub queued_runs : Runs A → ℕ
  queued_runs [] = 0
  queued_runs (row ∷ rows) =
      let rest = queued_runs rows in if is row.status queued then suc rest else rest

  -- Every run is queued or has ended.
  abbrev pub NoneInHand : Runs A → Type 0
  NoneInHand db = All (λ row. (row.status ≡ queued) ⊎ (is_terminal row.status ≡ true)) db

  abbrev pub AllEnded : Runs A → Type 0
  AllEnded db = All (λ row. is_terminal row.status ≡ true) db

  -- No two runs have one id.
  abbrev pub HasUniqueIds : Runs A → Type 0
  HasUniqueIds [] = Unit
  HasUniqueIds (row ∷ rows) = (find row.id rows ≡ none) × HasUniqueIds rows

  recover-NoneInHand :
      (stale_after now : ℕ) (db : Runs A) → NoneInHand db → recover_rows stale_after now db ≡ db
  unfolding recover_rows is_stale recovered is_terminal
  recover-NoneInHand stale_after now [] h = refl
  recover-NoneInHand stale_after now (row ∷ db) h =
      let rest = recover-NoneInHand stale_after now db h.1 in ground (arith, h.0)

  oldest_of_two :
      (row : RunRow A) (db : Runs A) (chosen : RunRow A)
      → oldest_queued (row ∷ db) ≡ some chosen
      → ((chosen ≡ row) × (row.status ≡ queued)) ⊎ (oldest_queued db ≡ some chosen)
  unfolding oldest_queued
  oldest_of_two row db chosen e = elim (Option-cases (oldest_queued db)) [
    | inl idle ↦ ground (arith, e, idle)
    | inr (other, older) ↦ ground (arith, e, older)
  ]

  chosen-found :
      (db : Runs A) (chosen : RunRow A)
      → HasUniqueIds db
      → oldest_queued db ≡ some chosen
      → (find chosen.id db ≡ some chosen) × (chosen.status ≡ queued)
  unfolding oldest_queued find
  chosen-found [] chosen u e = cc e
  chosen-found (row ∷ db) chosen u e = elim (oldest_of_two row db chosen e) [
    | inl (same, q) ↦ ground (arith, same, q)
    | inr later ↦ let (held, q) = chosen-found db chosen u.1 later in (ground (arith, u.0, held), q)
  ]

  all-ended : (db : Runs A) → NoneInHand db → queued_runs db ≡ 0 → AllEnded db
  unfolding queued_runs
  all-ended [] h e = tt
  all-ended (row ∷ db) h e = (ground (arith, h.0), all-ended db h.1 (ground arith))

  none-queued : (db : Runs A) → All (λ row. ¬ (row.status ≡ queued)) db → queued_runs db ≡ 0
  unfolding queued_runs
  none-queued [] h = refl
  none-queued (row ∷ db) h = elim (Bool-cases (is row.status queued)) [
    | inl q ↦ absurd (h.0 (ground (arith, q)))
    | inr other ↦ rw other (none-queued db h.1)
  ]

  idle-queue : (db : Runs A) → oldest_queued db ≡ none → queued_runs db ≡ 0
  idle-queue db e =
      none-queued db (subst (λ chosen. HasOldest chosen db) e (oldest_queued_first db))

  some_queued :
      (db : Runs A) (n : ℕ)
      → queued_runs db ≡ suc n
      → (chosen : RunRow A) × (oldest_queued db ≡ some chosen)
  some_queued db n e = elim (Option-cases (oldest_queued db)) [
    | inl idle ↦ absurd (positive (sym (idle-queue db idle) ∙ e))
    | inr found ↦ found
  ]
    where
      positive : 0 ≡ suc n → ⊥
      positive e = omega (arith, e)

  -- A queued run that is replaced by one that has ended.
  module _ (old new : RunRow A) (was_queued : old.status ≡ queued)
      (ended : is_terminal new.status ≡ true) where
    store-queued_runs :
        (db : Runs A)
        → find new.id db ≡ some old
        → queued_runs db ≡ suc (queued_runs (store new db))
    unfolding queued_runs store find is_terminal
    store-queued_runs [] e = cc e
    store-queued_runs (row ∷ db) e = ground (arith, was_queued, ended, e, store-queued_runs db)

    store-NoneInHand : (db : Runs A) → NoneInHand db → NoneInHand (store new db)
    unfolding store
    store-NoneInHand [] h = tt
    store-NoneInHand (row ∷ db) h = elim (Bool-cases (row.id == new.id)) [
      | inl this ↦ rw this (inr ended, h.1)
      | inr other ↦ rw other (h.0, store-NoneInHand db h.1)
    ]

  find-store-none :
      (j : ℕ) (new : RunRow A) (db : Runs A) → find j db ≡ none → find j (store new db) ≡ none
  unfolding store find
  find-store-none j new [] e = refl
  find-store-none j new (row ∷ db) e = ground (arith, find-store-none j new db)

  store-HasUniqueIds :
      (new : RunRow A) (db : Runs A) → HasUniqueIds db → HasUniqueIds (store new db)
  unfolding store
  store-HasUniqueIds new [] u = tt
  store-HasUniqueIds new (row ∷ db) u = elim (Bool-cases (row.id == new.id)) [
    | inl this ↦ rw this (ap (λ k. find k db) (sym ((==_iff row.id new.id).0 this)) ∙ u.0, u.1)
    | inr other ↦ rw other (find-store-none row.id new db u.0, store-HasUniqueIds new db u.1)
  ]

  store-store : (a b : RunRow A) (db : Runs A) → a.id ≡ b.id → store a (store b db) ≡ store a db
  unfolding store
  store-store a b [] e = refl
  store-store a b (row ∷ db) e = ground (arith, e, store-store a b db e)

  -- The claim of a worker that is alone.
  claim_next-alone :
      (worker_id : String) (now : ℕ) (db : Runs A) (chosen : RunRow A)
      → HasUniqueIds db
      → oldest_queued db ≡ some chosen
      → claim_next (λ _ t. t) worker_id now db
        ≡ (ok (some (claimed worker_id now chosen)), store (claimed worker_id now chosen) db)
  unfolding claim_next queued_row claimed read_claimed get_row
  claim_next-alone worker_id now db chosen u e =
      let (held, q) = chosen-found db chosen u e in
      let run = claimed worker_id now chosen in
      let run_held : find chosen.id (store run db) ≡ some run =
        find-store chosen.id run db chosen held ∙ ground arith in
      won_round 9 (λ _ t. t) worker_id now db chosen chosen e (rw (held, queued_row) (rw q refl))
      ∙ rw (read_claimed, get_row, run_held) refl

  -- One round, on a table that holds a queued run.
  pub record Worked (db : Runs A) (chosen : RunRow A) (outcome : Result RunError Bool × Runs A)
      : Type 0 where
    pub row : RunRow A
    pub worked : outcome ≡ (ok true, store row db)
    pub found : find row.id db ≡ some chosen
    pub was_queued : chosen.status ≡ queued
    pub ended : is_terminal row.status ≡ true

  pub record Drained (outcome : Result RunError (Unit {0}) × Runs A) : Type 0 where
    pub returned : outcome.0 ≡ ok tt
    pub all_ended : AllEnded outcome.1

module _ ⦃F : Floats⦄ (py : Optimizers) (short : ShortTexts py)
    (digest : Fields F.Float → Option String) (notices : List NoticeRow) (worker_id : String)
    (stale_after : ℕ) where
  one_round :
      (clock : Clock) (db : Runs F.Float) (chosen : RunRow F.Float)
      → HasUniqueIds db
      → NoneInHand db
      → oldest_queued db ≡ some chosen
      → Worked db chosen
          (execute_one py digest (λ _ t. t) (λ t. t) notices worker_id (pos stale_after) clock db)
  unfolding claimed find
  one_round clock db chosen u h e =
      let (held, q) = chosen-found db chosen u e in
      let run = claimed worker_id clock.claimed_at chosen in
      let kept = recover-NoneInHand stale_after clock.recovered_at db h in
      let claims : claim_next (λ _ t. t) worker_id clock.claimed_at
            (recover_rows stale_after clock.recovered_at db)
          ≡ (ok (some run), store run db) =
        rw kept (claim_next-alone worker_id clock.claimed_at db chosen u e) in
      let run_held : find chosen.id (store run db) ≡ some run =
        find-store chosen.id run db chosen held ∙ ground arith in
      let done =
        execute_one-Executed py short digest (λ _ t. t) (λ t. t) notices worker_id stale_after clock
          db (store run db) run run claims run_held (inl refl) in
      let same : done.row.id ≡ chosen.id =
        find-id chosen.id (store done.row (store run db)) done.row done.held in
      record {
        row = done.row;
        worked = done.returned ∙ ap (λ t. (ok true, t)) (store-store done.row run db same);
        found = ap (λ k. find k db) same ∙ held;
        was_queued = q;
        ended = done.ended;
      }

  -- A worker that is alone at a table with distinct ids, in which every run is queued or has
  -- ended, has after as many rounds as there are queued runs raised nothing and ended every
  -- run, provided no error code or solver name that it is given has more than 64 characters and
  -- no exception text more than 1000.
  pub work_rounds-Drained :
      (rounds : ℕ) (clock : ℕ → Clock) (db : Runs F.Float)
      → HasUniqueIds db
      → NoneInHand db
      → queued_runs db ≡ rounds
      → Drained (work_rounds py digest rounds notices worker_id (pos stale_after) clock db)
  unfolding work_rounds
  work_rounds-Drained zero clock db u h e = record { returned = refl; all_ended = all-ended db h e }
  work_rounds-Drained (suc rounds) clock db u h e =
      let (chosen, oldest) = some_queued db rounds e in
      let round = one_round (clock rounds) db chosen u h oldest in
      let less =
        sym (store-queued_runs chosen round.row round.was_queued round.ended db round.found) ∙ e in
      rw round.worked (
        work_rounds-Drained rounds clock (store round.row db) (store-HasUniqueIds round.row db u)
          (store-NoneInHand chosen round.row round.was_queued round.ended db h)
          (omega (arith, less)))
