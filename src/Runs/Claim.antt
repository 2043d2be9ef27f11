-- ===== src/Runs/Claim.antt =====
-- `claim_next` of aggregator_demo/run_repository.py. Between its read and its update other sessions
-- may commit, and between the update and the read of the claimed row: `others left` is what they do to
-- the table before the update of the round behind which `left` rounds are left, and `others 10` what
-- they do behind the update. `now` is the time of the round that claims a run; the times of the
-- other rounds are written nowhere.
pub mod Exclusive
use depotflux_demo.Prelude.{
  ℕ, zero, suc, Bool, true, false, ◌&&◌, ◌||◌, Option, none, some, List, [], ◌∷◌, String, ltb, ◌==◌,
  if◌then◌else◌, Result, ok, and_then,
}
use depotflux_demo.Runs.Status.{queued, running, is}
use depotflux_demo.Runs.Row.{RunRow, Runs, find, store}
use depotflux_demo.Runs.Repository.{Method, get_row}

module _ {A : Type 0} where
  -- `order_by(created_at.asc(), id.asc())`
  unfoldable pub is_before : RunRow A → RunRow A → Bool
  is_before a b = ltb a.created_at b.created_at || (a.created_at == b.created_at && ltb a.id b.id)

  -- The oldest queued run.
  unfoldable pub oldest_queued : Runs A → Option (RunRow A)
  oldest_queued [] = none
  oldest_queued (row ∷ rows) =
      let rest = oldest_queued rows in
      if is row.status queued
      then elim rest [
        | none ↦ some row
        | some other ↦ if is_before other row then some other else some row
      ]
      else rest

  -- The values of the `UPDATE`.
  unfoldable pub claimed : String → ℕ → RunRow A → RunRow A
  claimed worker_id now row = record row {
    status = running;
    worker_id = some worker_id;
    started_at = some (elim row.started_at [ none ↦ now | some t ↦ t ]);
    heartbeat_at = some now;
    updated_at = now;
  }

  -- `UPDATE … WHERE id = run_id AND status = 'queued'`: the row that it changes, if any
  unfoldable pub queued_row : ℕ → Runs A → Option (RunRow A)
  queued_row run_id db = elim (find run_id db) [
    | none ↦ none
    | some row ↦ if is row.status queued then some row else none
  ]

  -- `_get_row` behind the commit of the update.
  unfoldable pub read_claimed : ℕ → Method A (Option (RunRow A))
  read_claimed run_id db = and_then (get_row run_id db) λ row db. (ok (some row), db)

  -- The rounds that are left.
  unfoldable pub claim_rounds :
      ℕ → (ℕ → Runs A → Runs A) → String → ℕ → Method A (Option (RunRow A))
  claim_rounds zero others worker_id now db = (ok none, db)
  claim_rounds (suc left) others worker_id now db =
      let db' = others left db in
      elim (oldest_queued db) [
        | none ↦ (ok none, db)
        | some chosen ↦ elim (queued_row chosen.id db') [
          | none ↦ claim_rounds left others worker_id now db'
          | some row ↦ read_claimed chosen.id (others 10 (store (claimed worker_id now row) db'))
        ]
      ]

  unfoldable pub claim_next : (ℕ → Runs A → Runs A) → String → ℕ → Method A (Option (RunRow A))
  claim_next others worker_id now db = claim_rounds 10 others worker_id now db
